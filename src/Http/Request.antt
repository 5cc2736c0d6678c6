-- ===== src/Http/Request.antt =====
-- HTTPFraming.cc, ParseRequestHdr: the request line, the message headers and the empty line.
pub mod PrintText
pub mod Pieces
pub mod Cleared
use ip_utils.Base.{
  ℕ, ◌+◌, ◌-◌, ◌||◌, Option, none, some, List, [], ◌∷◌, ◌++◌, ltb, ◌==◌, if◌then◌else◌, Bytes,
  codes, length, drop, cstr, ◌>>=◌, is_empty, Step, next, halt, strncasecmp_eq,
}
use ip_utils.ErrorHandler
use ip_utils.ErrorHandler.{ErrorHandler, ex_software}
use ip_utils.Http.{method_get, method_head, method_post, method_put, method_delete, request, Http}
use ip_utils.Http.MsgHdrLine.{carriage_return, line_feed}
use ip_utils.Http.StartLine.{
  hdr_event, expect, parse_version, parse_msg_hdrs, clearing, skip_leading_space, HdrWalk,
}
use ip_utils.Url.{Url}
use ip_utils.Url.Parse.{init_from_buf}

-- The methods in the order of the tests.
abbrev pub request_methods : List (ℕ × Bytes)
request_methods =
    (method_get, codes "GET")
    ∷ (method_put, codes "PUT")
    ∷ (method_head, codes "HEAD")
    ∷ (method_post, codes "POST")
    ∷ (method_delete, codes "DELETE")
    ∷ []

abbrev unknown_method : Bytes → HdrWalk → Step HdrWalk
unknown_method behind w =
    hdr_event (codes "HTTPFraming::ParseRequestHdr(): unknown method: " ++ cstr (w.rest ++ behind))
      w

unfoldable pub match_method : List (ℕ × Bytes) → Bytes → HdrWalk → Step HdrWalk
match_method [] behind w = unknown_method behind w
match_method ((method, name) ∷ ms) behind w =
    if strncasecmp_eq (length name) name w.rest
    then next
        (record w { http = record w.http { method = method }; rest = drop (length name) w.rest })
    else match_method ms behind w

unfoldable pub parse_method : Bytes → HdrWalk → Step HdrWalk
unfolding match_method
parse_method behind w =
    if ltb (length w.rest) 16 then halt w else match_method request_methods behind w

-- What `URL::InitFromBuf` comes to.
abbrev pub after_uri : HdrWalk → Url × ErrorHandler × ℕ → Step HdrWalk
after_uri w (u, e, m) =
    let left = drop m w.rest in
    let w' : HdrWalk = record { http = record w.http { uri = u }; error = e; rest = left } in
    if m == 0 || is_empty left then halt w' else next w'

unfoldable pub parse_uri : Bytes → ℕ → HdrWalk → Step HdrWalk
parse_uri behind default_port w =
    after_uri w (init_from_buf w.http.uri w.error (some w.rest) behind default_port)

abbrev pub request_text : Bytes → Bytes
request_text text = codes "HTTPFraming::ParseRequestHdr(): " ++ text

abbrev pub expected_return : Bytes
expected_return = codes "expected '" ++ (carriage_return ∷ codes "', got: ")

abbrev pub expected_feed : Bytes
expected_feed = codes "expected '" ++ (line_feed ∷ codes "', got: ")

-- A CRLF of the header with something behind it.
unfoldable pub request_crlf : ℕ → Bytes → HdrWalk → Step HdrWalk
request_crlf len behind w =
    expect len behind (request_text expected_return) carriage_return w
    >>= expect len behind (request_text expected_feed) line_feed

unfoldable pub request_line : ℕ → Bytes → ℕ → HdrWalk → Step HdrWalk
request_line len behind default_port w =
    parse_method behind w
    >>= expect len behind (request_text (codes "expected SP, got char: ")) b' '
    >>= parse_uri behind default_port
    >>= expect len behind (request_text (codes "expected SP, got char: ")) b' '
    >>= parse_version len behind (request_text (codes "TODO(aka) expected '.', got char: "))
        (codes "HTTPFraming::Parse_Request_Hdr(): received unknown HTTP header version: ")
    >>= request_crlf len behind

-- The message headers and the empty line.
unfoldable pub request_hdrs : ℕ → Bytes → HdrWalk → Step HdrWalk
request_hdrs len behind w =
    clearing (parse_msg_hdrs (length w.rest + 1) behind w >>= request_crlf len behind)

-- The object, the errors, and the count of bytes used of a call that returns true.
abbrev pub request_end : ℕ → Step HdrWalk → Http × ErrorHandler × Option ℕ
request_end len (next w) =
    (record w.http { msg_type = request }, w.error, some (len - length w.rest))
request_end len (halt w) = (w.http, w.error, none)

unfoldable pub parse_request_hdr :
    Http → ErrorHandler → Option Bytes → Bytes → ℕ → Http × ErrorHandler × Option ℕ
parse_request_hdr h e none behind default_port =
    (h, ErrorHandler.init e ex_software (some (request_text (codes "buf is NULL"))), none)
parse_request_hdr h e (some buf) behind default_port = request_end (length buf) (
    request_line (length buf) behind default_port
      (skip_leading_space (record { http = h; error = e; rest = buf }))
    >>= request_hdrs (length buf) behind)

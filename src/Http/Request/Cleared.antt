-- ===== src/Http/Request/Cleared.antt =====
-- A request that is not accepted leaves no message headers behind.
use ip_utils.Base.{
  ℕ, ◌+◌, ◌≡◌, ◌||◌, Option, none, some, List, [], ◌∷◌, ltb, ◌==◌, some-none, Bytes, codes, length,
  drop, ◌>>=◌, is_empty, Step, next, halt, strncasecmp_eq,
}
use ip_utils.Url.{clear, Url}
use ip_utils.Url.Parse.{used, init_from_buf}
use ip_utils.Http.{MsgField, Http}
use ip_utils.Http.MsgHdrLine.{carriage_return, line_feed}
use ip_utils.Http.StartLine.{expect, parse_version, parse_msg_hdrs, skip_leading_space, HdrWalk}
use ip_utils.Http.StartLine.Keeps.{
  Keeps, KeepsIn, bind-Keeps, if-Keeps, expect-Keeps, parse_version-Keeps, HaltsClear,
  clearing-HaltsClear, bind-HaltsClear,
}
use ip_utils.Http.Request.{
  request_methods, match_method, parse_method, after_uri, parse_uri, request_text, expected_return,
  expected_feed, request_crlf, request_line, request_hdrs, request_end, parse_request_hdr,
}
use ip_utils.ErrorHandler.{ErrorHandler}

match_method-Keeps :
    (hs : List MsgField) (ms : List (ℕ × Bytes)) (behind : Bytes)
    → KeepsIn hs (match_method ms behind)
unfolding match_method
match_method-Keeps hs [] behind w h = h
match_method-Keeps hs ((method, name) ∷ ms) behind w h =
    if-Keeps hs (strncasecmp_eq (length name) name w.rest) _ _ h
      (match_method-Keeps hs ms behind w h)

parse_method-Keeps : (hs : List MsgField) (behind : Bytes) → KeepsIn hs (parse_method behind)
unfolding parse_method
parse_method-Keeps hs behind w h =
    if-Keeps hs (ltb (length w.rest) 16) _ _ h (match_method-Keeps hs request_methods behind w h)

after_uri-Keeps :
    (hs : List MsgField) (w : HdrWalk) (r : Url × ErrorHandler × ℕ)
    → w.http.msg_hdrs ≡ hs
    → Keeps hs (after_uri w r)
after_uri-Keeps hs w (u, e, m) h = if-Keeps hs (m == 0 || is_empty (drop m w.rest)) _ _ h h

parse_uri-Keeps :
    (hs : List MsgField) (behind : Bytes) (default_port : ℕ)
    → KeepsIn hs (parse_uri behind default_port)
unfolding parse_uri
parse_uri-Keeps hs behind default_port w h =
    after_uri-Keeps hs w (init_from_buf w.http.uri w.error (some w.rest) behind default_port) h

request_crlf-Keeps :
    (hs : List MsgField) (len : ℕ) (behind : Bytes) → KeepsIn hs (request_crlf len behind)
unfolding request_crlf
request_crlf-Keeps hs len behind w h =
    bind-Keeps hs _ _
      (expect-Keeps hs len behind (request_text expected_return) carriage_return w h)
      (expect-Keeps hs len behind (request_text expected_feed) line_feed)

request_line-Keeps :
    (hs : List MsgField) (len : ℕ) (behind : Bytes) (default_port : ℕ)
    → KeepsIn hs (request_line len behind default_port)
unfolding request_line
request_line-Keeps hs len behind default_port w h =
    let sp = request_text (codes "expected SP, got char: ") in
    let dot = request_text (codes "TODO(aka) expected '.', got char: ") in
    let unknown =
      codes "HTTPFraming::Parse_Request_Hdr(): received unknown HTTP header version: " in
    let at_sp = expect len behind sp b' ' in
    let skips = expect-Keeps hs len behind sp b' ' in
    bind-Keeps hs _ (request_crlf len behind)
      (bind-Keeps hs _ (parse_version len behind dot unknown)
        (bind-Keeps hs _ at_sp
          (bind-Keeps hs _ (parse_uri behind default_port)
            (bind-Keeps hs _ at_sp (parse_method-Keeps hs behind w h) skips)
            (parse_uri-Keeps hs behind default_port))
          skips)
        (parse_version-Keeps hs len behind dot unknown))
      (request_crlf-Keeps hs len behind)

-- What a call that does not accept leaves.
abbrev pub ClearedUnless : Http × ErrorHandler × Option ℕ → Type 0
ClearedUnless (h, e, used) = used ≡ none → h.msg_hdrs ≡ []

request_end-Cleared :
    (len : ℕ) (m : Step HdrWalk) → HaltsClear m → ClearedUnless (request_end len m)
request_end-Cleared len (next w) h = λ no. absurd (some-none no)
request_end-Cleared len (halt w) h = λ no. h

-- When a call of `ParseRequestHdr` on an object with no message headers returns false, whatever
-- the buffer holds, and NULL too, the object has no message headers again.
pub parse_request_hdr-cleared :
    (h : Http) (e : ErrorHandler) (buf : Option Bytes) (behind : Bytes) (default_port : ℕ)
    → h.msg_hdrs ≡ []
    → (parse_request_hdr h e buf behind default_port).2 ≡ none
    → (parse_request_hdr h e buf behind default_port).0.msg_hdrs ≡ []
unfolding parse_request_hdr request_hdrs
parse_request_hdr-cleared h e none behind default_port clear refused = clear
parse_request_hdr-cleared h e (some buf) behind default_port clear refused =
    request_end-Cleared (length buf) _
      (bind-HaltsClear
        (request_line (length buf) behind default_port
          (skip_leading_space (record { http = h; error = e; rest = buf })))
        (request_hdrs (length buf) behind)
        (request_line-Keeps [] (length buf) behind default_port
          (skip_leading_space (record { http = h; error = e; rest = buf })) clear)
        (λ w.
          clearing-HaltsClear
            (parse_msg_hdrs (length w.rest + 1) behind w >>= request_crlf (length buf) behind)))
      refused

-- ===== src/Http/InitFromBuf.antt =====
-- HTTPFraming.cc, InitFromBuf: the choice between a request and a response.
pub mod RoundTrip
pub mod Bodyless
use ip_utils.Base.{
  ℕ, ◌+◌, ◌-◌, Bool, ◌&&◌, ◌||◌, Option, none, some, ◌++◌, ltb, leb, if◌then◌else◌, Bytes, codes,
  length, cstr, isspace, span_rest, strncasecmp_eq,
}
use ip_utils.Http.{empty_http, Http}
use ip_utils.Http.StartLine.{http_slash}
use ip_utils.Http.Request.{parse_request_hdr}
use ip_utils.Http.Chunked.{ChunkBuf}
use ip_utils.Http.Response.{parse_response_hdr, Parsed}
use ip_utils.ErrorHandler
use ip_utils.ErrorHandler.{ErrorHandler, append_msg, ex_software}

-- `n >= strlen(word) && !strncasecmp(word, buf_ptr, strlen(word))`
abbrev pub begins : Bytes → Bytes → Bool
begins word rest = leb (length word) (length rest) && strncasecmp_eq (length word) word rest

unfoldable pub begins_request : Bytes → Bool
begins_request rest =
    begins (codes "GET") rest
    || begins (codes "HEAD") rest
    || begins (codes "POST") rest
    || begins (codes "PUT") rest
    || begins (codes "DELETE") rest

abbrev pub as_parsed : ChunkBuf → Http × ErrorHandler × Option ℕ → Parsed
as_parsed b (h, e, used) = record { http = h; error = e; chunked = b; used = used }

-- What `InitFromBuf` makes of a parse that began behind `skipped` bytes of white space.
unfoldable pub init_end : ℕ → Parsed → Parsed
init_end skipped p =
    if p.error.event_flag
    then record p {
      error = append_msg p.error (some (codes "HTTPFraming::InitFromBuf(): "));
      used = none;
    }
    else elim p.used [ none ↦ p | some m ↦ record p { used = some (skipped + m) } ]

-- `HTTPFraming::InitFromBuf`
unfoldable pub init_http_from_buf :
    (ℕ → Bool) → ErrorHandler → Option Bytes → Bytes → ℕ → ChunkBuf → Parsed
init_http_from_buf realloc e none behind default_port b = record {
  http = empty_http;
  error = ErrorHandler.init e ex_software (some (codes "HTTPFraming::InitFromBuf(): buf is NULL"));
  chunked = b;
  used = none;
}
init_http_from_buf realloc e (some buf) behind default_port b =
    let rest = span_rest isspace buf in
    let skipped = length buf - length rest in
    if begins_request rest
    then init_end skipped
        (as_parsed b (parse_request_hdr empty_http e (some rest) behind default_port))
    else if begins http_slash rest
    then init_end skipped (parse_response_hdr realloc empty_http e (some rest) behind b)
    else record {
      http = empty_http;
      error =
          if ltb (length rest) 6
          then e
          else ErrorHandler.init e ex_software (
              some (
                codes "HTTPFraming::InitFromBuf(): unknown status-line: "
                ++ cstr (rest ++ behind)));
      chunked = b;
      used = none;
    }

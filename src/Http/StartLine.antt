-- ===== src/Http/StartLine.antt =====
-- HTTPFraming.cc, the parts that ParseRequestHdr and ParseResponseHdr share: a walk over the buffer
-- that fills the object, the test for one byte, a number of the start line, the version, and the
-- loop over the message headers. `len` is the size of the buffer and `behind` what stands in memory
-- behind it; `halt` is a `return false`.
pub mod Pieces
pub mod Fuel
pub mod Keeps
use ip_utils.Base.{
  ℕ, zero, suc, ◌-◌, ◌%◌, ◌^◌, Bool, ◌&&◌, ◌||◌, some, [], ◌∷◌, ◌++◌, ltb, ◌==◌, if◌then◌else◌,
  Bytes, codes, length, drop, cstr, ◌>>=◌, isspace, isdigit, head_byte, tail, is_empty, span_taken,
  span_rest, Step, next, halt, decimal, print_int, strncasecmp_eq, strtol,
}
use ip_utils.ErrorHandler
use ip_utils.ErrorHandler.{ErrorHandler, ex_software}
use ip_utils.Http.{Http}
use ip_utils.Http.MsgHdrLine.{carriage_return, parse_msg_hdr}

-- The object, the global error record, and the bytes left.
pub record HdrWalk : Type 0 where
  pub http : Http
  pub error : ErrorHandler
  pub rest : Bytes

abbrev pub hdr_event : Bytes → HdrWalk → Step HdrWalk
hdr_event text w = halt (record w { error = ErrorHandler.init w.error ex_software (some text) })

-- `buf_ptr++; if (--n == 0) return false;`
unfoldable pub skip_byte : HdrWalk → Step HdrWalk
skip_byte w =
    if is_empty (tail w.rest)
    then halt (record w { rest = tail w.rest })
    else next (record w { rest = tail w.rest })

-- The byte that must stand at the pointer, with the message for any other.
unfoldable pub expect : ℕ → Bytes → Bytes → ℕ → HdrWalk → Step HdrWalk
expect len behind text c w =
    if head_byte w.rest == c
    then skip_byte w
    else hdr_event
        (text ++ (cstr (w.rest ++ behind) ++ (codes " at cnt: " ++ decimal (len - length w.rest))))
        w

-- `(int)strtol(digits, NULL, 10)`, as its 32-bit pattern.
abbrev pub int_of : Bytes → ℕ
int_of digits = strtol digits % 2 ^ 32

-- A number of the start line, and what it sets.
unfoldable pub parse_number : (ℕ → Http → Http) → HdrWalk → Step HdrWalk
parse_number set w =
    let rest = span_rest isdigit w.rest in
    if is_empty rest
    then halt (record w { rest = rest })
    else next (record w { http = set (int_of (span_taken isdigit w.rest)) w.http; rest = rest })

abbrev pub set_major : ℕ → Http → Http
set_major n h = record h { major = n }

abbrev pub set_minor : ℕ → Http → Http
set_minor n h = record h { minor = n }

abbrev pub set_status_code : ℕ → Http → Http
set_status_code n h = record h { status_code = n }

unfoldable pub known_version : Http → Bool
known_version h =
    h.major == 1 && h.minor == 1 || h.major == 1 && h.minor == 0 || h.major == 0 && h.minor == 9

unfoldable pub check_version : Bytes → HdrWalk → Step HdrWalk
check_version text w =
    if known_version w.http
    then next w
    else hdr_event (text ++ (print_int w.http.major ++ (b'.' ∷ print_int w.http.minor))) w

abbrev pub http_slash : Bytes
http_slash = codes "HTTP/"

unfoldable pub skip_http_slash : HdrWalk → Step HdrWalk
skip_http_slash w =
    if ltb (length http_slash) (length w.rest)
      && strncasecmp_eq (length http_slash) http_slash w.rest
    then next (record w { rest = drop (length http_slash) w.rest })
    else halt w

-- The version of the start line, with the messages of its two error paths.
unfoldable pub parse_version : ℕ → Bytes → Bytes → Bytes → HdrWalk → Step HdrWalk
parse_version len behind dot_text version_text w =
    skip_http_slash w
    >>= parse_number set_major
    >>= expect len behind dot_text b'.'
    >>= parse_number set_minor
    >>= check_version version_text

-- One round of the loop: what `ParseMsgHdr` makes of the rest, unless it uses nothing or all of it.
abbrev pub after_msg_hdr : Bytes → Http × ErrorHandler × ℕ → Step HdrWalk
after_msg_hdr rest (h, e, m) =
    let left = drop m rest in
    if m == 0 || is_empty left
    then halt (record { http = h; error = e; rest = left })
    else next (record { http = h; error = e; rest = left })

-- `while (*buf_ptr != '\r')`; each round takes a byte at least.
unfoldable pub parse_msg_hdrs : ℕ → Bytes → HdrWalk → Step HdrWalk
parse_msg_hdrs zero behind w = halt w
parse_msg_hdrs (suc fuel) behind w =
    if head_byte w.rest == carriage_return
    then next w
    else after_msg_hdr w.rest (parse_msg_hdr w.http w.error (some w.rest) behind)
      >>= parse_msg_hdrs fuel behind

abbrev pub clear_hdrs : HdrWalk → HdrWalk
clear_hdrs w = record w { http = record w.http { msg_hdrs = [] } }

-- `msg_hdrs_.clear()` in front of each `return false`.
abbrev pub clearing : Step HdrWalk → Step HdrWalk
clearing (next w) = next w
clearing (halt w) = halt (clear_hdrs w)

abbrev pub skip_leading_space : HdrWalk → HdrWalk
skip_leading_space w = record w { rest = span_rest isspace w.rest }

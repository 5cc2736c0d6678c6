-- ===== src/Http/InitFromBuf/Bodyless.antt =====
-- A request header with nothing behind its empty line.
use ip_utils.Base.{
  ℕ, ◌+◌, ◌-◌, ◌≡◌, refl, ap, ◌∙◌, Bool, false, Option, none, some, List, [], ◌∷◌, ◌++◌, arith,
  Bytes, length, length-append, All, isspace, span_rest, is_empty-append_cons, halt,
}
use ip_utils.Url.Print.{print_absolute_uri}
use ip_utils.Http.{empty_http, MsgField, not_ready, Http}
use ip_utils.Http.StartLine.{skip_byte, expect}
use ip_utils.Http.StartLine.Pieces.{at, length-lines_text, msg_hdrs_piece}
use ip_utils.Http.Request.{request_crlf, request_hdrs, parse_request_hdr}
use ip_utils.Http.MsgHdrLine.{carriage_return, line_feed}
use ip_utils.Http.MsgHdrLine.RoundTrip.{crlf, IsLine}
use ip_utils.Http.Print.Text.{lines_text}
use ip_utils.Http.Print.Hdr.{version_text, print_hdr}
use ip_utils.Http.Request.PrintText.{request_hdr_text, print_hdr-text, IsRequest}
use ip_utils.Http.Request.Pieces.{hdr_text_length, request_line-text}
use ip_utils.Http.Chunked.{ChunkBuf}
use ip_utils.Http.InitFromBuf.{as_parsed, init_end, init_http_from_buf}
use ip_utils.Http.InitFromBuf.RoundTrip.{begins_method}
use ip_utils.ErrorHandler.{ErrorHandler}

-- The loop ends at the empty line, whose line feed is the last byte of the buffer.
request_hdrs-end :
    (h : Http) (e : ErrorHandler) (len : ℕ) (hs : List MsgField) (behind : Bytes)
    → All IsLine hs
    → request_hdrs len behind (at h e (lines_text hs ++ crlf))
      ≡ halt (at (record h { msg_hdrs = [] }) e [])
unfolding request_hdrs request_crlf expect skip_byte
request_hdrs-end h e len hs behind lines =
    rw
      (msg_hdrs_piece hs (length (lines_text hs ++ crlf) + 1) h e behind (line_feed ∷ []) lines
        (omega (arith, length-lines_text hs, length-append (lines_text hs) crlf)))
      refl

-- What the call leaves in the object.
abbrev pub as_unfinished : Http → Http
as_unfinished g = record g { msg_type = not_ready; status_code = 0; msg_hdrs = [] }

parse_request_hdr-end :
    (g : Http) (e : ErrorHandler) (behind : Bytes) (default_port : ℕ)
    → IsRequest g
    → parse_request_hdr empty_http e (some (request_hdr_text g)) behind default_port
      ≡ (as_unfinished g, e, none)
unfolding parse_request_hdr
parse_request_hdr-end g e behind default_port r =
    let rest = lines_text g.msg_hdrs ++ crlf in
    let len = length (request_hdr_text g) in
    let no_space : span_rest isspace (request_hdr_text g) ≡ request_hdr_text g =
      (begins_method g.method _ r.method).0 in
    rw
      (
        no_space,
        request_line-text empty_http g e len behind rest default_port r
            (is_empty-append_cons (lines_text g.msg_hdrs) carriage_return (line_feed ∷ []))
            (hdr_text_length g r),
        request_hdrs-end
            (record empty_http { method = g.method; uri = g.uri; major = g.major; minor = g.minor })
            e len g.msg_hdrs behind r.lines,
      )
      refl

init_end_refused :
    (skipped : ℕ) (h : Http) (e : ErrorHandler) (b : ChunkBuf)
    → e.event_flag ≡ false
    → init_end skipped (record { http = h; error = e; chunked = b; used = none })
      ≡ record { http = h; error = e; chunked = b; used = none }
unfolding init_end
init_end_refused skipped h e b no_event = simp no_event

-- The printed header of such a request is not accepted when nothing stands behind it: where no
-- event was set, none is raised and the call returns false, as for a header that is cut off, with
-- the method, the URL and the version set and no message headers.
pub init_http_from_buf-bodyless :
    (realloc : ℕ → Bool) (g : Http) (e : ErrorHandler) (behind : Bytes) (default_port : ℕ)
    (b : ChunkBuf)
    → IsRequest g
    → e.event_flag ≡ false
    → init_http_from_buf realloc e (some (print_hdr g 0 false)) behind default_port b
      ≡ record { http = as_unfinished g; error = e; chunked = b; used = none }
unfolding init_http_from_buf
init_http_from_buf-bodyless realloc g e behind default_port b r no_event =
    let behind_method =
      print_absolute_uri g.uri
      ++ (b' ' ∷ (version_text g ++ (crlf ++ (lines_text g.msg_hdrs ++ crlf)))) in
    let (no_space, begins_it) = begins_method g.method behind_method r.method in
    let skipped = length (request_hdr_text g) - length (request_hdr_text g) in
    rw (print_hdr-text g r, no_space, begins_it)
      (ap (λ (p : Http × ErrorHandler × Option ℕ). init_end skipped (as_parsed b p))
          (parse_request_hdr-end g e behind default_port r)
        ∙ init_end_refused skipped (as_unfinished g) e b no_event)

-- ===== src/Http/InitFromBuf/RoundTrip.antt =====
-- `InitFromBuf` reads back a request header that `print_hdr` writes.
use ip_utils.Base.{
  ℕ, zero, suc, ◌+◌, ◌-◌, ◌≤◌, ◌≡◌, refl, sym, ap, ◌∙◌, Bool, true, false, false≢true, Option, some,
  [], ◌∷◌, ◌++◌, arith, Bytes, length, get_or, length-append, isspace, is_empty, span_rest,
  is_empty-append_cons, strncasecmp_eq,
}
use ip_utils.Url.Print.{print_absolute_uri}
use ip_utils.Http.{method_names, between, empty_http, request, Http}
use ip_utils.Http.Request.{parse_request_hdr}
use ip_utils.Http.MsgHdrLine.{carriage_return, line_feed}
use ip_utils.Http.MsgHdrLine.RoundTrip.{crlf}
use ip_utils.Http.Print.Text.{lines_text}
use ip_utils.Http.Print.Hdr.{version_text, method_text, print_hdr}
use ip_utils.Http.Request.PrintText.{request_hdr_text, print_hdr-text, IsRequest}
use ip_utils.Http.Request.Pieces.{
  hdr_text_append, hdr_text_length, request_line-text, request_hdrs-text,
}
use ip_utils.Http.Chunked.{ChunkBuf}
use ip_utils.Http.InitFromBuf.{begins_request, as_parsed, init_end, init_http_from_buf}
use ip_utils.ErrorHandler.{ErrorHandler}

pub begins_method :
    (m : ℕ) (t : Bytes)
    → between 1 5 m ≡ true
    → (span_rest isspace (get_or method_names m [] ++ (b' ' ∷ t))
        ≡ get_or method_names m [] ++ (b' ' ∷ t))
      × (begins_request (get_or method_names m [] ++ (b' ' ∷ t)) ≡ true)
unfolding begins_request strncasecmp_eq span_rest isspace
begins_method zero t known = absurd (false≢true known)
begins_method (suc zero) t known = (refl, ground arith)
begins_method (suc (suc zero)) t known = (refl, ground arith)
begins_method (suc (suc (suc zero))) t known = (refl, ground arith)
begins_method (suc (suc (suc (suc zero)))) t known = (refl, ground arith)
begins_method (suc (suc (suc (suc (suc zero))))) t known = (refl, ground arith)
begins_method (suc (suc (suc (suc (suc (suc m)))))) t known = absurd (ground arith)

-- What a header leaves in an object: a request has no status code.
abbrev pub as_request : Http → Http
as_request g = record g { msg_type = request; status_code = 0 }

-- The header and what stands behind it, cut where the parser cuts them.
abbrev header_parts : Http → Bytes → Bytes
header_parts g t =
    method_text g
    ++ (b' '
        ∷ (print_absolute_uri g.uri
            ++ (b' ' ∷ (version_text g ++ (crlf ++ (lines_text g.msg_hdrs ++ (crlf ++ t)))))))

parse_parts :
    (g : Http) (e : ErrorHandler) (t behind : Bytes) (default_port : ℕ)
    → IsRequest g
    → is_empty t ≡ false
    → 16 ≤ length (header_parts g t)
    → parse_request_hdr empty_http e (some (header_parts g t)) behind default_port
      ≡ (as_request g, e, some (length (header_parts g t) - length t))
unfolding parse_request_hdr
parse_parts g e t behind default_port r some_left long =
    let rest = lines_text g.msg_hdrs ++ (crlf ++ t) in
    let len = length (header_parts g t) in
    let no_space : span_rest isspace (header_parts g t) ≡ header_parts g t =
      (begins_method g.method _ r.method).0 in
    rw
      (
        no_space,
        request_line-text empty_http g e len behind rest default_port r
            (is_empty-append_cons (lines_text g.msg_hdrs) carriage_return (line_feed ∷ t)) long,
        request_hdrs-text
            (record empty_http { method = g.method; uri = g.uri; major = g.major; minor = g.minor })
            e len g.msg_hdrs behind t r.lines some_left,
      )
      refl

parse_request_hdr-text :
    (g : Http) (e : ErrorHandler) (t behind : Bytes) (default_port : ℕ)
    → IsRequest g
    → is_empty t ≡ false
    → parse_request_hdr empty_http e (some (request_hdr_text g ++ t)) behind default_port
      ≡ (as_request g, e, some (length (request_hdr_text g)))
parse_request_hdr-text g e t behind default_port r some_left =
    let parts = hdr_text_append g t in
    let long : 16 ≤ length (header_parts g t) =
      omega (arith, ap length parts, length-append (request_hdr_text g) t, hdr_text_length g r) in
    ap (λ (buf : Bytes). parse_request_hdr empty_http e (some buf) behind default_port) parts
    ∙ parse_parts g e t behind default_port r some_left long
    ∙ ap (λ (n : ℕ). (as_request g, e, some n))
        (omega (arith, ap length parts, length-append (request_hdr_text g) t))

-- A parse that succeeds and raises no event is what the call returns.
init_end_used :
    (skipped n : ℕ) (h : Http) (e : ErrorHandler) (b : ChunkBuf)
    → e.event_flag ≡ false
    → init_end skipped (record { http = h; error = e; chunked = b; used = some n })
      ≡ record { http = h; error = e; chunked = b; used = some (skipped + n) }
unfolding init_end
init_end_used skipped n h e b no_event = simp no_event

init_of_request :
    (realloc : ℕ → Bool) (h : Http) (e : ErrorHandler) (buf behind : Bytes) (default_port n : ℕ)
    (b : ChunkBuf)
    → e.event_flag ≡ false
    → span_rest isspace buf ≡ buf
    → begins_request buf ≡ true
    → parse_request_hdr empty_http e (some buf) behind default_port ≡ (h, e, some n)
    → init_http_from_buf realloc e (some buf) behind default_port b
      ≡ record { http = h; error = e; chunked = b; used = some n }
unfolding init_http_from_buf
init_of_request realloc h e buf behind default_port n b no_event no_space is_request parsed =
    rw (no_space, is_request)
      (ap
          (λ (p : Http × ErrorHandler × Option ℕ).
            init_end (length buf - length buf) (as_parsed b p))
          parsed
        ∙ init_end_used (length buf - length buf) n h e b no_event
        ∙ ap (λ (k : ℕ). record { http = h; error = e; chunked = b; used = some k }) (omega arith))

-- A request header that `print_hdr` writes, with a full URL, and that fits its buffer of 4096
-- bytes is read back by `InitFromBuf` when something stands behind it, for each of the five
-- methods the parser knows and a version 1.1, 1.0 or 0.9, a URL that its own printer writes
-- without loss, and message headers whose parts hold none of the bytes that end them: where no
-- event was set, the object is the printed one as a request with no status code, no event is
-- raised, the buffer for a chunked body is not touched, and the count of bytes used is the length
-- of the header.
pub init_http_from_buf-print_hdr :
    (realloc : ℕ → Bool) (g : Http) (e : ErrorHandler) (t behind : Bytes) (default_port : ℕ)
    (b : ChunkBuf)
    → IsRequest g
    → e.event_flag ≡ false
    → is_empty t ≡ false
    → init_http_from_buf realloc e (some (print_hdr g 0 false ++ t)) behind default_port b
      ≡ record {
        http = as_request g;
        error = e;
        chunked = b;
        used = some (length (print_hdr g 0 false));
      }
init_http_from_buf-print_hdr realloc g e t behind default_port b r no_event some_left =
    let parts = hdr_text_append g t in
    let (no_space, begins_it) = begins_method g.method _ r.method in
    rw (print_hdr-text g r) (
      init_of_request realloc (as_request g) e (request_hdr_text g ++ t) behind default_port
        (length (request_hdr_text g)) b no_event
        (ap (span_rest isspace) parts ∙ no_space ∙ sym parts) (ap begins_request parts ∙ begins_it)
        (parse_request_hdr-text g e t behind default_port r some_left))

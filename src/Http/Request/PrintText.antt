-- ===== src/Http/Request/PrintText.antt =====
-- What `print_hdr` writes of a request, as the text of the request line and of the header lines.
use ip_utils.Base.{
  ◌≤◌, ◌<◌, ◌≡◌, refl, ◌∙◌, true, false, [], ◌∷◌, ◌++◌, append_assoc, arith, ◌==◌, Bytes, codes,
  length, take, length-append, All, take_all, is_empty-false, decimal, decimal-ne-nil,
}
use ip_utils.Url.{Url}
use ip_utils.Url.Print.{emit, print_absolute_uri}
use ip_utils.Url.RoundTrip.{print_absolute_uri-IsWritable, IsWritable}
use ip_utils.Http.{between, Http}
use ip_utils.Http.StartLine.Pieces.{IsKnown}
use ip_utils.Http.MsgHdrLine.RoundTrip.{crlf, IsLine}
use ip_utils.Http.Print.{print_size, print_msg_hdrs}
use ip_utils.Http.Print.Text.{lines_text, print_msg_hdrs-text}
use ip_utils.Http.Print.Hdr.{version_text, method_text, print_start_line, print_hdr}
use ip_utils.Url.RoundTrip.PrintText.{tail_text}

-- The text of a request header with no buffer to fit.
abbrev pub request_hdr_text : Http → Bytes
request_hdr_text g =
    method_text g
    ++ (b' '
        ∷ (print_absolute_uri g.uri
            ++ (b' ' ∷ (version_text g ++ (crlf ++ (lines_text g.msg_hdrs ++ crlf))))))

-- A request whose header is written without loss.
pub record IsRequest (g : Http) : Type 0 where
  pub method : between 1 5 g.method ≡ true
  pub version : IsKnown g
  pub uri : IsWritable g.uri
  pub lines : All IsLine g.msg_hdrs
  pub fits : length (request_hdr_text g) < print_size

emit_all : (s : Bytes) → length s < print_size → emit [] s ≡ s
emit_all s small = take_all 4095 s (omega arith)

-- A header whose start line, header lines and whole text fit their buffers.
pub whole_hdr_fits :
    (g : Http) (start lines : Bytes)
    → print_start_line g false ≡ take 4095 start
    → print_msg_hdrs g ≡ take 4095 lines
    → length (start ++ (crlf ++ (lines ++ crlf))) < print_size
    → print_hdr g 0 false ≡ start ++ (crlf ++ (lines ++ crlf))
unfolding print_hdr
whole_hdr_fits g start lines hs hl fits =
    let sizes : (length start ≤ 4095) × (length lines ≤ 4095) = (
      omega (arith, length-append start (crlf ++ (lines ++ crlf)), length-append lines crlf),
      omega (arith, length-append start (crlf ++ (lines ++ crlf)), length-append lines crlf),
    ) in
    rw (hs, hl, take_all 4095 start sizes.0, take_all 4095 lines sizes.1)
      (emit_all (start ++ (crlf ++ (lines ++ crlf))) fits)

abbrev request_line_text : Http → Bytes
request_line_text g =
    method_text g ++ (b' ' ∷ (print_absolute_uri g.uri ++ (b' ' ∷ version_text g)))

print_start_line-request :
    (g : Http)
    → between 1 5 g.method ≡ true
    → print_start_line g false ≡ take 4095 (request_line_text g)
unfolding print_start_line
print_start_line-request g known =
    let not_null : (g.method == 0) ≡ false = ground arith in rw not_null refl

request_text_parts :
    (g : Http)
    → request_line_text g ++ (crlf ++ (lines_text g.msg_hdrs ++ crlf)) ≡ request_hdr_text g
request_text_parts g = simp append_assoc

pub print_hdr-text : (g : Http) → IsRequest g → print_hdr g 0 false ≡ request_hdr_text g
print_hdr-text g r =
    whole_hdr_fits g (request_line_text g) (lines_text g.msg_hdrs)
      (print_start_line-request g r.method) (print_msg_hdrs-text g r.lines)
      (rw (request_text_parts g) r.fits)
    ∙ request_text_parts g

pub print_absolute_uri-length : (u : Url) → IsWritable u → 7 ≤ length (print_absolute_uri u)
print_absolute_uri-length u w = rw (print_absolute_uri-IsWritable u w) (
    omega (
      arith,
      is_empty-false u.scheme w.scheme_some,
      is_empty-false u.host w.host_some,
      decimal-ne-nil u.port,
      length-append u.scheme (codes "://" ++ (u.host ++ (b':' ∷ (decimal u.port ++ tail_text u)))),
      length-append u.host (b':' ∷ (decimal u.port ++ tail_text u)),
      length-append (decimal u.port) (tail_text u),
    ))

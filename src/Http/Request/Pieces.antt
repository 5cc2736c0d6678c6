-- ===== src/Http/Request/Pieces.antt =====
-- The request line and the message headers of a printed request, with something behind them, are
-- read back.
use ip_utils.Base.{
  ℕ, zero, suc, ◌+◌, ◌≤◌, ◌≡◌, refl, inr, true, false, false≢true, List, [], ◌∷◌, ◌++◌,
  append_assoc, arith, ltb, ◌==◌, Bytes, codes, length, get_or, length-append, All, drop_append,
  isspace, isdigit, is_empty, is_empty-append_cons, next, print_int, strncasecmp_eq,
}
use ip_utils.Url.{Url}
use ip_utils.Url.Print.{print_absolute_uri}
use ip_utils.Url.RoundTrip.{init_from_buf-print, IsWritable}
use ip_utils.Http.{method_names, between, MsgField, Http}
use ip_utils.Http.StartLine.Pieces.{
  at, expect_piece, version_piece, length-lines_text, msg_hdrs_piece,
}
use ip_utils.Http.Request.{
  request_methods, match_method, parse_method, parse_uri, request_text, expected_return,
  expected_feed, request_crlf, request_line, request_hdrs,
}
use ip_utils.Http.MsgHdrLine.{carriage_return, line_feed}
use ip_utils.Http.MsgHdrLine.RoundTrip.{crlf, IsLine}
use ip_utils.Http.Print.Text.{lines_text}
use ip_utils.Http.Print.Hdr.{version_text, method_text}
use ip_utils.Http.Request.PrintText.{request_hdr_text, print_absolute_uri-length, IsRequest}
use ip_utils.ErrorHandler.{ErrorHandler}

match_method_piece :
    (m : ℕ) (h : Http) (e : ErrorHandler) (behind t : Bytes)
    → between 1 5 m ≡ true
    → match_method request_methods behind (at h e (get_or method_names m [] ++ (b' ' ∷ t)))
      ≡ next (at (record h { method = m }) e (b' ' ∷ t))
unfolding match_method strncasecmp_eq
match_method_piece zero h e behind t known = absurd (false≢true known)
match_method_piece (suc zero) h e behind t known = refl
match_method_piece (suc (suc zero)) h e behind t known = refl
match_method_piece (suc (suc (suc zero))) h e behind t known = refl
match_method_piece (suc (suc (suc (suc zero)))) h e behind t known = refl
match_method_piece (suc (suc (suc (suc (suc zero))))) h e behind t known = refl
match_method_piece (suc (suc (suc (suc (suc (suc m)))))) h e behind t known = absurd (ground arith)

method_piece :
    (h g : Http) (e : ErrorHandler) (behind t : Bytes)
    → between 1 5 g.method ≡ true
    → 16 ≤ length (method_text g ++ (b' ' ∷ t))
    → parse_method behind (at h e (method_text g ++ (b' ' ∷ t)))
      ≡ next (at (record h { method = g.method }) e (b' ' ∷ t))
unfolding parse_method
method_piece h g e behind t known long =
    let enough : ltb (length (method_text g ++ (b' ' ∷ t))) 16 ≡ false = ground arith in
    rw enough (match_method_piece g.method h e behind t known)

uri_piece :
    (h : Http) (u : Url) (e : ErrorHandler) (behind t : Bytes) (default_port : ℕ)
    → IsWritable u
    → parse_uri behind default_port (at h e (print_absolute_uri u ++ (b' ' ∷ t)))
      ≡ next (at (record h { uri = u }) e (b' ' ∷ t))
unfolding parse_uri isspace
uri_piece h u e behind t default_port w =
    let used : (length (print_absolute_uri u) == 0) ≡ false =
      ground (arith, print_absolute_uri-length u w) in
    rw
      (
        init_from_buf-print u h.uri e (b' ' ∷ t) behind default_port w (inr refl),
        drop_append (print_absolute_uri u) (b' ' ∷ t),
        used,
      )
      refl

pub hdr_text_append :
    (g : Http) (t : Bytes)
    → request_hdr_text g ++ t
      ≡ method_text g
        ++ (b' '
            ∷ (print_absolute_uri g.uri
                ++ (b' ' ∷ (version_text g ++ (crlf ++ (lines_text g.msg_hdrs ++ (crlf ++ t)))))))
hdr_text_append g t = simp append_assoc

pub hdr_text_length : (g : Http) → IsRequest g → 16 ≤ length (request_hdr_text g)
hdr_text_length g r = omega (
  arith,
  print_absolute_uri-length g.uri r.uri,
  length-append (method_text g) (
      b' '
      ∷ (print_absolute_uri g.uri
          ++ (b' ' ∷ (version_text g ++ (crlf ++ (lines_text g.msg_hdrs ++ crlf)))))),
  length-append (print_absolute_uri g.uri)
      (b' ' ∷ (version_text g ++ (crlf ++ (lines_text g.msg_hdrs ++ crlf)))),
  length-append (print_int g.major ++ (b'.' ∷ print_int g.minor))
      (crlf ++ (lines_text g.msg_hdrs ++ crlf)),
  length-append (lines_text g.msg_hdrs) crlf,
)

crlf_piece :
    (h : Http) (e : ErrorHandler) (len : ℕ) (behind t : Bytes)
    → is_empty t ≡ false
    → request_crlf len behind (at h e (crlf ++ t)) ≡ next (at h e t)
unfolding request_crlf
crlf_piece h e len behind t some_left =
    rw
      (
        expect_piece h e len behind (request_text expected_return) carriage_return (line_feed ∷ t)
            refl,
        expect_piece h e len behind (request_text expected_feed) line_feed t some_left,
      )
      refl

-- The request line, with something behind it.
pub request_line-text :
    (h g : Http) (e : ErrorHandler) (len : ℕ) (behind t : Bytes) (default_port : ℕ)
    → IsRequest g
    → is_empty t ≡ false
    → 16
      ≤ length (
          method_text g
          ++ (b' ' ∷ (print_absolute_uri g.uri ++ (b' ' ∷ (version_text g ++ (crlf ++ t))))))
    → request_line len behind default_port (
        at h e (
          method_text g
          ++ (b' ' ∷ (print_absolute_uri g.uri ++ (b' ' ∷ (version_text g ++ (crlf ++ t)))))))
      ≡ next
          (at (record h { method = g.method; uri = g.uri; major = g.major; minor = g.minor }) e t)
unfolding request_line isdigit
request_line-text h g e len behind t default_port r some_left long =
    let sp = request_text (codes "expected SP, got char: ") in
    let at_version = version_text g ++ (crlf ++ t) in
    let at_uri = print_absolute_uri g.uri ++ (b' ' ∷ at_version) in
    let h' = record h { method = g.method } in
    let h'' = record h' { uri = g.uri } in
    rw
      (
        method_piece h g e behind at_uri r.method long,
        expect_piece h' e len behind sp b' ' at_uri
            (is_empty-append_cons (print_absolute_uri g.uri) b' ' at_version),
        uri_piece h' g.uri e behind at_version default_port r.uri,
        expect_piece h'' e len behind sp b' ' at_version refl,
        version_piece h'' g e len behind (request_text (codes "TODO(aka) expected '.', got char: "))
            (codes "HTTPFraming::Parse_Request_Hdr(): received unknown HTTP header version: ")
            (crlf ++ t) r.version refl (inr refl),
        crlf_piece (record h'' { major = g.major; minor = g.minor }) e len behind t some_left,
      )
      refl

pub request_hdrs-text :
    (h : Http) (e : ErrorHandler) (len : ℕ) (hs : List MsgField) (behind t : Bytes)
    → All IsLine hs
    → is_empty t ≡ false
    → request_hdrs len behind (at h e (lines_text hs ++ (crlf ++ t)))
      ≡ next (at (record h { msg_hdrs = h.msg_hdrs ++ hs }) e t)
unfolding request_hdrs
request_hdrs-text h e len hs behind t lines some_left =
    rw
      (
        msg_hdrs_piece hs (length (lines_text hs ++ (crlf ++ t)) + 1) h e behind (line_feed ∷ t)
            lines (omega (arith, length-lines_text hs, length-append (lines_text hs) (crlf ++ t))),
        crlf_piece (record h { msg_hdrs = h.msg_hdrs ++ hs }) e len behind t some_left,
      )
      refl

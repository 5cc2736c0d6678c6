-- ===== src/Http/Print/Text.antt =====
-- What `print_msg_hdrs` writes, as the text of its header lines.
use ip_utils.Base.{
  ℕ, ◌-◌, ◌≡◌, refl, ap, ◌∙◌, Bool, List, [], ◌∷◌, ◌++◌, append_assoc, append-nil, Bytes, codes,
  take, All, cstr, cstr-All, snprintf-take,
}
use ip_utils.Http.{Parameter, MsgField, Http}
use ip_utils.Http.Print.{print_size, emit, print_params, print_field, print_fields, print_msg_hdrs}
use ip_utils.Http.MsgHdrLine.RoundTrip.{
  IsPart, params_text, crlf, line_text, part-HasNoNul, IsParam, IsLine,
}
use ip_utils.Http.MsgHdrLine.{in_name, in_key, in_value}

-- The lines of a list of headers, in order.
unfoldable pub lines_text : List MsgField → Bytes
lines_text [] = []
lines_text (h ∷ hs) = line_text h ++ lines_text hs

abbrev cut : Bytes → Bytes
cut = take (print_size - 1)

emit-cut : (out s : Bytes) → emit (cut out) s ≡ cut (out ++ s)
emit-cut = snprintf-take print_size

part_cstr : (keep : ℕ → Bool) (xs : Bytes) → IsPart keep xs → cstr xs ≡ xs
part_cstr keep xs (some_byte, start, h) = cstr-All xs (part-HasNoNul keep xs h)

print_params-text :
    (out : Bytes) (p : Parameter) (ps : List Parameter)
    → All IsParam (p ∷ ps)
    → print_params (cut (out ++ codes "; ")) (p ∷ ps) ≡ cut (out ++ (params_text (p ∷ ps) ++ crlf))
unfolding print_params params_text
print_params-text out p [] ((hk, hv), h) =
    rw
      (
        part_cstr in_key p.key hk,
        part_cstr in_value p.value hv,
        emit-cut (out ++ codes "; ") (p.key ++ (b'=' ∷ p.value)),
        emit-cut ((out ++ codes "; ") ++ (p.key ++ (b'=' ∷ p.value))) crlf,
      )
      (simp append_assoc)
print_params-text out p (q ∷ ps) ((hk, hv), h) =
    rw
      (
        part_cstr in_key p.key hk,
        part_cstr in_value p.value hv,
        emit-cut (out ++ codes "; ") (p.key ++ (b'=' ∷ p.value)),
        emit-cut ((out ++ codes "; ") ++ (p.key ++ (b'=' ∷ p.value))) (codes "; "),
        print_params-text ((out ++ codes "; ") ++ (p.key ++ (b'=' ∷ p.value))) q ps h,
      )
      (simp append_assoc)

print_field-text :
    (out : Bytes) (h : MsgField) (ps : List Parameter)
    → IsPart in_name h.field_name
    → IsPart in_value h.field_value
    → All IsParam ps
    → print_field (cut out) h ps
      ≡ cut (out ++ (h.field_name ++ (codes ": " ++ (h.field_value ++ (params_text ps ++ crlf)))))
unfolding params_text
print_field-text out h [] hn hv hp =
    rw
      (
        part_cstr in_name h.field_name hn,
        part_cstr in_value h.field_value hv,
        emit-cut out (h.field_name ++ (codes ": " ++ (h.field_value ++ crlf))),
      )
      refl
print_field-text out h (p ∷ ps) hn hv hp =
    let front = out ++ (h.field_name ++ (codes ": " ++ h.field_value)) in
    let regroup : out ++ (h.field_name ++ (codes ": " ++ (h.field_value ++ codes "; ")))
        ≡ front ++ codes "; " =
      simp append_assoc in
    rw
      (
        part_cstr in_name h.field_name hn,
        part_cstr in_value h.field_value hv,
        emit-cut out (h.field_name ++ (codes ": " ++ (h.field_value ++ codes "; "))),
        regroup,
        print_params-text front p ps hp,
      )
      (ap cut (
        append_assoc out (h.field_name ++ (codes ": " ++ h.field_value))
          (params_text (p ∷ ps) ++ crlf)
        ∙ ap (◌++◌ out) (
            append_assoc h.field_name (codes ": " ++ h.field_value)
              (params_text (p ∷ ps) ++ crlf))))

print_fields-text :
    (hs : List MsgField) (out : Bytes)
    → All IsLine hs
    → print_fields (cut out) hs ≡ cut (out ++ lines_text hs)
unfolding print_fields lines_text
print_fields-text [] out h = rw append-nil
print_fields-text (x ∷ hs) out (hx, h) =
    rw
      (
        print_field-text out x x.parameters hx.0 hx.1 hx.2,
        print_fields-text hs (out ++ line_text x) h,
      )
      (simp append_assoc)

-- When each name, value and key of the headers has a byte, begins with no white space, and holds
-- no NUL and no delimiter that ends it, `print_msg_hdrs` writes the lines of the headers in
-- order, each in the form that `ParseMsgHdr` reads, and cuts the text off at 4095 bytes.
pub print_msg_hdrs-text :
    (h : Http) → All IsLine h.msg_hdrs → print_msg_hdrs h ≡ take 4095 (lines_text h.msg_hdrs)
unfolding print_msg_hdrs
print_msg_hdrs-text h lines = print_fields-text h.msg_hdrs [] lines

-- ===== src/Mime/Text.antt =====
-- MIMEFraming.cc: what print_hdr writes, as the text of a message of several parts.
use ip_utils.Base.{
  ℕ, ◌-◌, ◌≡◌, refl, ap, inl, inr, Bool, true, false, none, some, List, [], ◌∷◌, ◌++◌, append_assoc,
  append-nil, Option-cases, Bytes, codes, take, cstr, snprintf-take,
}
use ip_utils.Http.{Parameter, MsgField}
use ip_utils.Mime.{
  mime_size, crlf, boundary, non_mime_text, emit, print_params, print_field, print_fields,
  find_data, closing, print_parts, from_offset, print_hdr, Mime,
}

-- `key=value`, with `; ` between two of them.
unfoldable pub params_text : List Parameter → Bytes
params_text [] = []
params_text (p ∷ []) = cstr p.key ++ (b'=' ∷ cstr p.value)
params_text (p ∷ q ∷ ps) =
    cstr p.key ++ (b'=' ∷ (cstr p.value ++ (codes "; " ++ params_text (q ∷ ps))))

abbrev value_text : List Parameter → Bytes
value_text [] = []
value_text (p ∷ ps) = codes "; " ++ params_text (p ∷ ps)

abbrev field_text : MsgField → Bytes
field_text h =
    cstr h.field_name ++ (codes ": " ++ (cstr h.field_value ++ (value_text h.parameters ++ crlf)))

unfoldable pub fields_text : List MsgField → Bytes
unfolding params_text
fields_text [] = []
fields_text (h ∷ hs) = field_text h ++ fields_text hs

-- Each part is its boundary, its headers, an empty line and its data; a boundary stands behind it,
-- which closes the message behind the last part. The first part with no data is the end.
unfoldable pub parts_text : List (ℕ × Bytes) → List (ℕ × List MsgField) → Bytes × Bool
unfolding fields_text
parts_text texts [] = ([], true)
parts_text texts ((key, hs) ∷ rest) =
    let front = boundary ++ fields_text hs in
    let (behind, complete) = parts_text texts rest in
    elim (find_data key texts) [
      | none ↦ (front, false)
      | some text ↦ (front ++ ((crlf ++ (cstr text ++ crlf)) ++ (closing rest ++ behind)), complete)
    ]

abbrev cut : Bytes → Bytes
cut = take (mime_size - 1)

emit-cut : (out s : Bytes) → emit (cut out) s ≡ cut (out ++ s)
emit-cut = snprintf-take mime_size

print_params-text :
    (out : Bytes) (p : Parameter) (ps : List Parameter)
    → print_params (cut out) (p ∷ ps) ≡ cut (out ++ (params_text (p ∷ ps) ++ crlf))
unfolding print_params params_text
print_params-text out p [] =
    rw
      (
        emit-cut out (cstr p.key ++ (b'=' ∷ cstr p.value)),
        emit-cut (out ++ (cstr p.key ++ (b'=' ∷ cstr p.value))) crlf,
      )
      (simp append_assoc)
print_params-text out p (q ∷ ps) =
    rw
      (
        emit-cut out (cstr p.key ++ (b'=' ∷ cstr p.value)),
        emit-cut (out ++ (cstr p.key ++ (b'=' ∷ cstr p.value))) (codes "; "),
        print_params-text ((out ++ (cstr p.key ++ (b'=' ∷ cstr p.value))) ++ codes "; ") q ps,
      )
      (simp append_assoc)

print_field-text :
    (out : Bytes) (h : MsgField) (ps : List Parameter)
    → print_field (cut out) h ps
      ≡ cut (
          out
          ++ (cstr h.field_name ++ (codes ": " ++ (cstr h.field_value ++ (value_text ps ++ crlf)))))
print_field-text out h [] =
    emit-cut out (cstr h.field_name ++ (codes ": " ++ (cstr h.field_value ++ crlf)))
print_field-text out h (p ∷ ps) =
    let front = cstr h.field_name ++ (codes ": " ++ (cstr h.field_value ++ codes "; ")) in
    rw (emit-cut out front, print_params-text (out ++ front) p ps) (simp append_assoc)

print_fields-text :
    (hs : List MsgField) (out : Bytes) → print_fields (cut out) hs ≡ cut (out ++ fields_text hs)
unfolding print_fields fields_text
print_fields-text [] out = rw (append-nil out) refl
print_fields-text (h ∷ hs) out =
    rw (print_field-text out h h.parameters, print_fields-text hs (out ++ field_text h))
      (ap cut (append_assoc out (field_text h) (fields_text hs)))

abbrev cut_off : Bytes → Bytes × Bool → Bytes × Bool
cut_off out (text, complete) = (cut (out ++ text), complete)

regroup :
    (out fields block end behind : Bytes)
    → ((((out ++ boundary) ++ fields) ++ block) ++ end) ++ behind
      ≡ out ++ ((boundary ++ fields) ++ (block ++ (end ++ behind)))
regroup out fields block end behind = simp append_assoc

print_parts-text :
    (texts : List (ℕ × Bytes)) (parts : List (ℕ × List MsgField)) (out : Bytes)
    → print_parts texts (cut out) parts ≡ cut_off out (parts_text texts parts)
unfolding print_parts parts_text
print_parts-text texts [] out = rw (append-nil out) refl
print_parts-text texts ((key, hs) ∷ rest) out =
    let front = out ++ boundary in
    let behind = front ++ fields_text hs in
    elim (Option-cases (find_data key texts)) [
      | inl missing ↦
          rw (missing, print_parts, parts_text, emit-cut out boundary, print_fields-text hs front)
            (ap (λ (x : Bytes). (cut x, false)) (append_assoc out boundary (fields_text hs)))
      | inr (text, there) ↦
          let block = crlf ++ (cstr text ++ crlf) in
          let out' = (behind ++ block) ++ closing rest in
          rw
            (
              there,
              print_parts,
              parts_text,
              emit-cut out boundary,
              print_fields-text hs front,
              emit-cut behind block,
              emit-cut (behind ++ block) (closing rest),
              print_parts-text texts rest out',
            )
            (ap (λ (x : Bytes). (cut x, (parts_text texts rest).1))
              (regroup out (fields_text hs) block (closing rest) (parts_text texts rest).0))
    ]

-- The cuts of the steps of `print_hdr` come to one cut.
pub print_hdr-cut :
    (m : Mime) (offset : ℕ)
    → let (parts, complete) = parts_text m.multipart_data m.multipart_hdrs in
      print_hdr m offset
      ≡ from_offset offset
          (cut (fields_text m.msg_hdrs ++ ((crlf ++ (non_mime_text ++ crlf)) ++ parts)), complete)
unfolding print_hdr
print_hdr-cut m offset =
    let line = crlf ++ (non_mime_text ++ crlf) in
    let parts = parts_text m.multipart_data m.multipart_hdrs in
    rw
      (
        print_fields-text m.msg_hdrs [],
        emit-cut (fields_text m.msg_hdrs) line,
        print_parts-text m.multipart_data m.multipart_hdrs (fields_text m.msg_hdrs ++ line),
      )
      (ap (λ (x : Bytes). from_offset offset (cut x, parts.1))
        (append_assoc (fields_text m.msg_hdrs) line parts.0))

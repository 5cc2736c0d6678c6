-- ===== src/Mime.antt =====
-- MIMEFraming.cc, MIMEFraming.h: the constructor, and print_hdr, which prints a message of several
-- parts into one buffer. The two maps are lists in the order of their keys.
pub mod Text
pub mod Whole
use ip_utils.Base.{
  ℕ, Bool, true, false, Option, none, some, List, [], ◌∷◌, ◌++◌, leb, ◌==◌, if◌then◌else◌, Bytes,
  codes, drop, cstr, snprintf, value,
}
use ip_utils.Http.{Parameter, MsgField, Http}

-- `MIMEFRAMING_MAX_HDR_SIZE + MIMEFRAMING_MAX_MULTIPART_SIZE`
abbrev pub mime_size : ℕ
mime_size = 9216

pub record Mime : Type 0 where
  pub msg_hdrs : List MsgField
  pub multipart_hdrs : List (ℕ × List MsgField)
  pub multipart_data : List (ℕ × Bytes)

-- The constructor.
abbrev pub new_mime : Mime
new_mime = record {
  msg_hdrs =
      record { field_name = codes "MIME-Version"; field_value = codes "1.0"; parameters = [] } ∷ [];
  multipart_hdrs = [];
  multipart_data = [];
}

abbrev pub crlf : Bytes
crlf = 13 ∷ 10 ∷ []

abbrev pub boundary : Bytes
boundary = codes "--MIME_Boundary" ++ crlf

abbrev pub last_boundary : Bytes
last_boundary = codes "--MIME_Boundary--" ++ crlf

abbrev pub non_mime_text : Bytes
non_mime_text = codes "This is a message with multiple parts in MIME format."

-- `snprintf` behind what the buffer holds.
abbrev pub emit : Bytes → Bytes → Bytes
emit out s = snprintf mime_size out s

-- The loop over the parameters of a header.
unfoldable pub print_params : Bytes → List Parameter → Bytes
print_params out [] = out
print_params out (p ∷ []) = emit (emit out (cstr p.key ++ (b'=' ∷ cstr p.value))) crlf
print_params out (p ∷ q ∷ ps) =
    print_params (emit (emit out (cstr p.key ++ (b'=' ∷ cstr p.value))) (codes "; ")) (q ∷ ps)

abbrev pub print_field : Bytes → MsgField → List Parameter → Bytes
print_field out h [] = emit out (cstr h.field_name ++ (codes ": " ++ (cstr h.field_value ++ crlf)))
print_field out h (p ∷ ps) =
    print_params
      (emit out (cstr h.field_name ++ (codes ": " ++ (cstr h.field_value ++ codes "; ")))) (p ∷ ps)

unfoldable pub print_fields : Bytes → List MsgField → Bytes
unfolding print_params
print_fields out [] = out
print_fields out (h ∷ hs) = print_fields (print_field out h h.parameters) hs

-- The loop over the data of the parts.
unfoldable pub find_data : ℕ → List (ℕ × Bytes) → Option Bytes
find_data key [] = none
find_data key ((k, text) ∷ rest) = if k == key then some text else find_data key rest

-- The boundary behind a part.
abbrev pub closing : List (ℕ × List MsgField) → Bytes
closing [] = last_boundary
closing (p ∷ ps) = boundary

-- What was printed, and whether it is complete: a part with no data ends the loop.
unfoldable pub print_parts : List (ℕ × Bytes) → Bytes → List (ℕ × List MsgField) → Bytes × Bool
unfolding print_fields find_data
print_parts texts out [] = (out, true)
print_parts texts out ((key, hs) ∷ rest) =
    let out' = print_fields (emit out boundary) hs in
    elim (find_data key texts) [
      | none ↦ (out', false)
      | some text ↦
          print_parts texts (emit (emit out' (crlf ++ (cstr text ++ crlf))) (closing rest)) rest
    ]

-- What the string that is returned holds before its first NUL: the string has the size of the
-- buffer.
abbrev pub from_offset : ℕ → Bytes × Bool → Bytes
from_offset offset (text, false) = text
from_offset offset (text, true) = if leb offset mime_size then drop offset text else text

unfoldable pub print_hdr : Mime → ℕ → Bytes
unfolding print_parts print_fields
print_hdr m offset = from_offset offset (
    print_parts m.multipart_data
      (emit (print_fields [] m.msg_hdrs) (crlf ++ (non_mime_text ++ crlf))) m.multipart_hdrs)

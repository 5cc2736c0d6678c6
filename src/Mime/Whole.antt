-- ===== src/Mime/Whole.antt =====
-- MIMEFraming.cc: what print_hdr writes when no part lacks its data.
use ip_utils.Base.{
  ℕ, ◌<◌, ◌≡◌, refl, ap, ◌∙◌, true, false, some, List, [], ◌∷◌, ◌++◌, append_assoc, arith, leb,
  ◌==◌, if◌then◌else◌, Bytes, codes, take, drop, cstr, All,
}
use ip_utils.Http.{MsgField}
use ip_utils.Mime.{crlf, non_mime_text, find_data, print_hdr, Mime}
use ip_utils.Mime.Text.{fields_text, parts_text, print_hdr-cut}

-- A part of a message: its key in the two maps, its headers and its data.
pub record Part : Type 0 where
  pub key : ℕ
  pub hdrs : List MsgField
  pub text : Bytes

-- The two maps, in the order of their keys.
unfoldable pub hdrs_of : List Part → List (ℕ × List MsgField)
hdrs_of [] = []
hdrs_of (p ∷ ps) = (p.key, p.hdrs) ∷ hdrs_of ps

unfoldable pub data_of : List Part → List (ℕ × Bytes)
data_of [] = []
data_of (p ∷ ps) = (p.key, p.text) ∷ data_of ps

-- A map holds a key once, and its keys stand in order.
unfoldable pub IsOrdered : List Part → Type 0
IsOrdered [] = Unit
IsOrdered (p ∷ ps) = All (λ (q : Part). p.key < q.key) ps × IsOrdered ps

-- A part begins with a boundary line. Behind its headers stand an empty line and its data.
abbrev pub part_text : Part → Bytes
part_text p =
    codes "--MIME_Boundary" ++ (crlf ++ (fields_text p.hdrs ++ (crlf ++ (cstr p.text ++ crlf))))

-- The parts, with one more boundary line between two of them and the closing line at the end.
unfoldable pub multipart_text : List Part → Bytes
multipart_text [] = []
multipart_text (p ∷ []) = part_text p ++ (codes "--MIME_Boundary--" ++ crlf)
multipart_text (p ∷ q ∷ ps) =
    part_text p ++ (codes "--MIME_Boundary" ++ (crlf ++ multipart_text (q ∷ ps)))

-- `print_hdr` with no offset, before it is cut off.
abbrev pub message_text : List MsgField → List Part → Bytes
message_text hdrs ps = fields_text hdrs ++ (crlf ++ (non_mime_text ++ (crlf ++ multipart_text ps)))

-- The data that stands under the key of a part is its own.
abbrev IsFound : List (ℕ × Bytes) → Part → Type 0
IsFound texts p = find_data p.key texts ≡ some p.text

find_behind :
    (p : Part) (texts : List (ℕ × Bytes)) (qs : List Part)
    → All (λ (q : Part). p.key < q.key) qs
    → All (IsFound texts) qs
    → All (IsFound ((p.key, p.text) ∷ texts)) qs
unfolding find_data
find_behind p texts [] less found = tt
find_behind p texts (q ∷ qs) (lt, less) (at, found) =
    let other : (p.key == q.key) ≡ false = ground (arith, lt) in
    (rw other at, find_behind p texts qs less found)

data_of-IsFound : (ps : List Part) → IsOrdered ps → All (IsFound (data_of ps)) ps
unfolding data_of IsOrdered find_data
data_of-IsFound [] w = tt
data_of-IsFound (p ∷ ps) (less, w) =
    let same : (p.key == p.key) ≡ true = ground arith in
    (rw same refl, find_behind p (data_of ps) ps less (data_of-IsFound ps w))

parts_text-multipart :
    (texts : List (ℕ × Bytes)) (ps : List Part)
    → All (IsFound texts) ps
    → parts_text texts (hdrs_of ps) ≡ (multipart_text ps, true)
unfolding parts_text hdrs_of multipart_text
parts_text-multipart texts [] found = refl
parts_text-multipart texts (p ∷ []) (at, found) = rw (parts_text, at) (simp append_assoc)
parts_text-multipart texts (p ∷ q ∷ ps) (at, found) =
    rw (parts_text, at, parts_text-multipart texts (q ∷ ps) found) (simp append_assoc)

-- When the headers and the data of a message stand under the same keys, in the order of the keys,
-- `print_hdr` writes the header lines, an empty line, a line for clients that know no parts, and
-- each part with its own data, cut off at 9215 bytes; between two parts stand two boundary lines.
-- It starts at the offset where this is at most the size of the buffer, and at the front else. Every
-- string is read up to its first NUL.
pub print_hdr-text :
    (m : Mime) (ps : List Part) (offset : ℕ)
    → m.multipart_hdrs ≡ hdrs_of ps
    → m.multipart_data ≡ data_of ps
    → IsOrdered ps
    → print_hdr m offset ≡ (
        if leb offset 9216
        then drop offset (take 9215 (message_text m.msg_hdrs ps))
        else take 9215 (message_text m.msg_hdrs ps))
print_hdr-text m ps offset hdrs texts w =
    let parts : parts_text m.multipart_data m.multipart_hdrs ≡ (multipart_text ps, true) =
      ap (λ (x : List (ℕ × List MsgField)). parts_text m.multipart_data x) hdrs
      ∙ ap (λ (x : List (ℕ × Bytes)). parts_text x (hdrs_of ps)) texts
      ∙ parts_text-multipart (data_of ps) ps (data_of-IsFound ps w) in
    print_hdr-cut m offset ∙ rw parts refl

-- ===== src/Http/Print.antt =====
-- HTTPFraming.cc, print_msg_hdrs: the message headers, printed into one buffer.
pub mod Text
pub mod Hdr
use ip_utils.Base.{ℕ, List, [], ◌∷◌, ◌++◌, Bytes, codes, cstr, snprintf, value}
use ip_utils.Http.{Parameter, MsgField, Http}

abbrev pub print_size : ℕ
print_size = 4096

-- `snprintf` behind what the buffer holds.
abbrev pub emit : Bytes → Bytes → Bytes
emit out s = snprintf print_size out s

-- The loop over the parameters of a header.
unfoldable pub print_params : Bytes → List Parameter → Bytes
print_params out [] = out
print_params out (p ∷ []) = emit (emit out (cstr p.key ++ (b'=' ∷ cstr p.value))) (13 ∷ 10 ∷ [])
print_params out (p ∷ q ∷ ps) =
    print_params (emit (emit out (cstr p.key ++ (b'=' ∷ cstr p.value))) (codes "; ")) (q ∷ ps)

abbrev pub print_field : Bytes → MsgField → List Parameter → Bytes
print_field out h [] =
    emit out (cstr h.field_name ++ (codes ": " ++ (cstr h.field_value ++ (13 ∷ 10 ∷ []))))
print_field out h (p ∷ ps) =
    print_params
      (emit out (cstr h.field_name ++ (codes ": " ++ (cstr h.field_value ++ codes "; ")))) (p ∷ ps)

unfoldable pub print_fields : Bytes → List MsgField → Bytes
print_fields out [] = out
print_fields out (h ∷ hs) = print_fields (print_field out h h.parameters) hs

-- What the string holds before its first NUL.
unfoldable pub print_msg_hdrs : Http → Bytes
print_msg_hdrs h = print_fields [] h.msg_hdrs

-- ===== src/Tests/LogTests.antt =====
-- Logger.cc, MIMEFraming.cc: the theorems on concrete inputs.
use ip_utils.Base.{◌≡◌, refl, List, [], ◌∷◌, arith, codes, take, drop}
use ip_utils.Http.{MsgField}
use ip_utils.Mime.{new_mime, print_hdr, Mime}
use ip_utils.Mime.Whole.{hdrs_of, data_of, message_text, print_hdr-text, Part, IsOrdered}

abbrev type_field : MsgField
type_field = record {
  field_name = codes "Content-Type";
  field_value = codes "text/xml";
  parameters = record { key = codes "charset"; value = codes "UTF-8" } ∷ [];
}

abbrev parts : List Part
parts =
    record { key = 1; hdrs = type_field ∷ []; text = codes "<a/>" }
    ∷ record { key = 2; hdrs = []; text = codes "b" }
    ∷ []

abbrev two_parts : Mime
two_parts = record new_mime {
  multipart_hdrs = (1, type_field ∷ []) ∷ (2, []) ∷ [];
  multipart_data = (1, codes "<a/>") ∷ (2, codes "b") ∷ [];
}

two_parts_hdrs : two_parts.multipart_hdrs ≡ hdrs_of parts
unfolding hdrs_of
two_parts_hdrs = refl

two_parts_data : two_parts.multipart_data ≡ data_of parts
unfolding data_of
two_parts_data = refl

parts-IsOrdered : IsOrdered parts
unfolding IsOrdered
parts-IsOrdered = ((omega arith, tt), (tt, tt))

print_hdr-text_example :
    print_hdr two_parts 3 ≡ drop 3 (take 9215 (message_text two_parts.msg_hdrs parts))
print_hdr-text_example =
    print_hdr-text two_parts parts 3 two_parts_hdrs two_parts_data parts-IsOrdered

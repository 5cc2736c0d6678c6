-- ===== src/Tests/Base64Tests.antt =====
-- Base64.cc on concrete inputs.
use ip_utils.Base.{◌≡◌, refl, codes}
use ip_utils.Base64.{encode, decode}

encode_three : encode (codes "Man") ≡ codes "TWFu"
unfolding encode
encode_three = refl

encode_one : encode (codes "Many") ≡ codes "TWFueQ=="
unfolding encode
encode_one = refl

decode_one : decode (codes "TWFueQ==") ≡ codes "Many"
unfolding decode
decode_one = refl

-- Decoding stops at the first byte outside the alphabet.
decode_stops : decode (codes "TWFu TWFu") ≡ codes "Man"
unfolding decode
decode_stops = refl

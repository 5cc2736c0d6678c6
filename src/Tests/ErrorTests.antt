-- ===== src/Tests/ErrorTests.antt =====
-- ErrorHandler.cc and Base64.cc: the theorems on concrete inputs.
use ip_utils.Base.{◌≡◌, refl, true, [], ◌∷◌, arith, codes}
use ip_utils.ErrorHandler.{ErrorHandler, print}
use ip_utils.Base64.{encode, decode}
use ip_utils.Base64.RoundTrip.{decode-encode}

abbrev failed : ErrorHandler
failed = record {
  event_flag = true;
  realm = 70;
  sys_errno = 0;
  msgs = codes "read" ∷ codes "Read(): " ∷ [];
}

print-failed : print failed ≡ codes "read: Read(): "
unfolding print
print-failed = refl

decode-encode_example : decode (encode (codes "Many")) ≡ codes "Many"
decode-encode_example =
    decode-encode (codes "Many") (omega arith, (omega arith, (omega arith, (omega arith, tt))))

-- ===== src/Base64/RoundTrip.antt =====
-- `Base64Decode` undoes `Base64Encode`, and the length of an encoding.
use ip_utils.Base.{
  ℕ, ◌+◌, ◌*◌, ◌/◌, ◌%◌, ◌<◌, ◌≡◌, refl, sym, ap, ◌∙◌, [], ◌∷◌, ◌++◌, map, append_assoc, append-nil,
  arith, Bytes, codes, length, take, All,
}
use ip_utils.Base64.{
  find, sextets, base64_char, chars, encode_byte, encode_loop, pad, encode_rest, encode, octets,
  decode_char, decode_loop, decode_rest, decode,
}
use ip_utils.Base64.Tables.{byte_bits, sextet_bits}

abbrev pub IsByte : ℕ → Type 0
IsByte x = x < 256

abbrev IsSextet : ℕ → Type 0
IsSextet x = x < 64

-- The sextets of three bytes, by arithmetic.
abbrev pub sextets_of : ℕ → ℕ → ℕ → Bytes
sextets_of a b c = a / 4 ∷ (a % 4 * 16 + b / 16) ∷ (b % 16 * 4 + c / 64) ∷ c % 64 ∷ []

sextets_lem :
    (a b c : ℕ) → a < 256 → b < 256 → c < 256 → sextets (a ∷ b ∷ c ∷ []) ≡ sextets_of a b c
unfolding sextets
sextets_lem a b c ha hb hc = ground (arith, byte_bits a ha, byte_bits b hb, byte_bits c hc)

-- Reading back the characters of four six-bit values.
octets_lem :
    (v w x y : ℕ)
    → v < 64
    → w < 64
    → x < 64
    → y < 64
    → octets (map find (chars (v ∷ w ∷ x ∷ y ∷ [])))
      ≡ (v * 4 + w / 16) ∷ (w % 16 * 16 + x / 4) ∷ (x % 4 * 64 + y) ∷ []
unfolding octets chars
octets_lem v w x y hv hw hx hy =
    ground (arith, sextet_bits v hv, sextet_bits w hw, sextet_bits x hx, sextet_bits y hy)

-- Four characters of the alphabet fill the array and empty it.
decode_loop_four :
    (v w x y : ℕ) (out rest : Bytes)
    → v < 64
    → w < 64
    → x < 64
    → y < 64
    → decode_loop
        (record { array4 = []; decoded = out })
        (base64_char v ∷ base64_char w ∷ base64_char x ∷ base64_char y ∷ rest)
      ≡ decode_loop
          (record {
            array4 = [];
            decoded =
                out
                ++ octets
                    (map find (base64_char v ∷ base64_char w ∷ base64_char x ∷ base64_char y ∷ []));
          })
          rest
unfolding decode_loop decode_char
decode_loop_four v w x y out rest hv hw hx hy =
    let (_, _, _, _, _, v') = sextet_bits v hv in
    let (_, _, _, _, _, w') = sextet_bits w hw in
    let (_, _, _, _, _, x') = sextet_bits x hx in
    let (_, _, _, _, _, y') = sextet_bits y hy in rw (v', w', x', y')

-- The encoding by groups of three bytes, with no state.
pub groups : Bytes → Bytes
groups [] = []
groups (a ∷ []) = chars (take 2 (sextets_of a 0 0)) ++ codes "=="
groups (a ∷ b ∷ []) = chars (take 3 (sextets_of a b 0)) ++ codes "="
groups (a ∷ b ∷ c ∷ rest) = chars (sextets_of a b c) ++ groups rest

encode_loop-groups :
    (bs out : Bytes)
    → All IsByte bs
    → encode_rest (encode_loop (record { array3 = []; ret = out }) bs) ≡ out ++ groups bs
unfolding encode_loop encode_byte encode_rest groups chars pad
encode_loop-groups [] out h = sym (append-nil out)
encode_loop-groups (a ∷ []) out (ha, h) =
    rw (sextets_lem a 0 0 ha (omega arith) (omega arith)) (simp append_assoc)
encode_loop-groups (a ∷ b ∷ []) out (ha, (hb, h)) =
    rw (sextets_lem a b 0 ha hb (omega arith)) (simp append_assoc)
encode_loop-groups (a ∷ b ∷ c ∷ rest) out (ha, (hb, (hc, h))) =
    encode_loop-groups rest (out ++ chars (sextets (a ∷ b ∷ c ∷ []))) h
    ∙ rw (sextets_lem a b c ha hb hc) (simp append_assoc)

encode-groups : (bs : Bytes) → All IsByte bs → encode bs ≡ groups bs
unfolding encode
encode-groups bs h = encode_loop-groups bs [] h

-- Two characters left over give one byte, and three give two.
decode_rest_two :
    (v w : ℕ) (out : Bytes)
    → v < 64
    → w < 64
    → decode_rest (record { array4 = base64_char v ∷ base64_char w ∷ []; decoded = out })
      ≡ out ++ ((v * 4 + w / 16) ∷ [])
unfolding decode_rest octets pad
decode_rest_two v w out hv hw =
    ap (λ (b : ℕ). out ++ (b ∷ [])) (ground (arith, sextet_bits v hv, sextet_bits w hw))

decode_rest_three :
    (v w x : ℕ) (out : Bytes)
    → v < 64
    → w < 64
    → x < 64
    → decode_rest
        (record { array4 = base64_char v ∷ base64_char w ∷ base64_char x ∷ []; decoded = out })
      ≡ out ++ ((v * 4 + w / 16) ∷ (w % 16 * 16 + x / 4) ∷ [])
unfolding decode_rest octets pad
decode_rest_three v w x out hv hw hx =
    ap (◌++◌ out) (ground (arith, sextet_bits v hv, sextet_bits w hw, sextet_bits x hx))

decode_loop_two :
    (v w : ℕ) (out : Bytes)
    → v < 64
    → w < 64
    → decode_loop
        (record { array4 = []; decoded = out })
        (base64_char v ∷ base64_char w ∷ codes "==")
      ≡ record { array4 = base64_char v ∷ base64_char w ∷ []; decoded = out }
unfolding decode_loop decode_char
decode_loop_two v w out hv hw =
    let (_, _, _, _, _, v') = sextet_bits v hv in
    let (_, _, _, _, _, w') = sextet_bits w hw in rw (v', w')

decode_loop_three :
    (v w x : ℕ) (out : Bytes)
    → v < 64
    → w < 64
    → x < 64
    → decode_loop
        (record { array4 = []; decoded = out })
        (base64_char v ∷ base64_char w ∷ base64_char x ∷ codes "=")
      ≡ record { array4 = base64_char v ∷ base64_char w ∷ base64_char x ∷ []; decoded = out }
unfolding decode_loop decode_char
decode_loop_three v w x out hv hw hx =
    let (_, _, _, _, _, v') = sextet_bits v hv in
    let (_, _, _, _, _, w') = sextet_bits w hw in
    let (_, _, _, _, _, x') = sextet_bits x hx in rw (v', w', x')

decode_loop-groups :
    (bs out : Bytes)
    → All IsByte bs
    → decode_rest (decode_loop (record { array4 = []; decoded = out }) (groups bs)) ≡ out ++ bs
unfolding groups chars
decode_loop-groups [] out h = unfold decode_loop decode_rest in sym (append-nil out)
decode_loop-groups (a ∷ []) out (ha, h) =
    ap decode_rest (decode_loop_two (a / 4) (a % 4 * 16 + 0) out (omega arith) (omega arith))
    ∙ decode_rest_two (a / 4) (a % 4 * 16 + 0) out (omega arith) (omega arith)
    ∙ ap (λ (x : ℕ). out ++ (x ∷ [])) (omega arith)
decode_loop-groups (a ∷ b ∷ []) out (ha, (hb, h)) =
    ap decode_rest (
      decode_loop_three (a / 4) (a % 4 * 16 + b / 16) (b % 16 * 4 + 0) out (omega arith)
        (omega arith) (omega arith))
    ∙ decode_rest_three (a / 4) (a % 4 * 16 + b / 16) (b % 16 * 4 + 0) out (omega arith)
        (omega arith) (omega arith)
    ∙ ap (◌++◌ out) (ground arith)
decode_loop-groups (a ∷ b ∷ c ∷ rest) out (ha, (hb, (hc, h))) =
    ap decode_rest (
      decode_loop_four (a / 4) (a % 4 * 16 + b / 16) (b % 16 * 4 + c / 64) (c % 64) out
        (groups rest) (omega arith) (omega arith) (omega arith) (omega arith))
    ∙ decode_loop-groups rest _ h
    ∙ rw
        (octets_lem (a / 4) (a % 4 * 16 + b / 16) (b % 16 * 4 + c / 64) (c % 64) (omega arith)
          (omega arith) (omega arith) (omega arith))
        (append_assoc out _ rest ∙ ap (◌++◌ out) (ground arith))

-- `Base64Decode` gives back every list of bytes that `Base64Encode` was given.
pub decode-encode : (bs : Bytes) → All IsByte bs → decode (encode bs) ≡ bs
unfolding decode
decode-encode bs h = rw (encode-groups bs h) (decode_loop-groups bs [] h)

length-groups : (bs : Bytes) → length (groups bs) ≡ (length bs + 2) / 3 * 4
unfolding groups chars
length-groups [] = refl
length-groups (a ∷ []) = refl
length-groups (a ∷ b ∷ []) = refl
length-groups (a ∷ b ∷ c ∷ rest) = omega (arith, length-groups rest)

-- Four characters for each three bytes begun.
pub length-encode : (bs : Bytes) → All IsByte bs → length (encode bs) ≡ (length bs + 2) / 3 * 4
length-encode bs h = rw (encode-groups bs h) (length-groups bs)

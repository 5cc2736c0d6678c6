-- ===== src/Base64.antt =====
-- Base64.cc: `Base64Encode` and `Base64Decode`. A buffer is the list of its bytes. The arrays
-- `char_array_3` and `char_array_4` are the lists of the entries filled so far.
mod Tables
pub mod RoundTrip
use ip_utils.Base.{
  ℕ, zero, suc, ◌+◌, ◌-◌, ◌*◌, ◌/◌, ◌%◌, bit_and, Bool, not, ◌&&◌, ◌||◌, [], ◌∷◌, ◌++◌, map, leb,
  ◌==◌, if◌then◌else◌, Bytes, codes, length, get_or, take,
}

abbrev pub base64_chars : Bytes
base64_chars = codes "ABCDEFGHIJKLMNOPQRSTUVWXYZabcdefghijklmnopqrstuvwxyz0123456789+/"

abbrev within : ℕ → ℕ → ℕ → Bool
within lo hi c = leb lo c && leb c hi

-- `isalnum` of the C locale.
abbrev isalnum : ℕ → Bool
isalnum c = within b'0' b'9' c || within b'A' b'Z' c || within b'a' b'z' c

pub is_base64 : ℕ → Bool
is_base64 c = isalnum c || c == b'+' || c == b'/'

-- `base64_chars.find(c)`, stored in an unsigned char: `npos` becomes 255.
pub find_from : Bytes → ℕ → ℕ → ℕ
find_from [] i c = 255
find_from (x ∷ xs) i c = if x == c then i else find_from xs (i + 1) c

pub find : ℕ → ℕ
unfolding find_from
find c = find_from base64_chars 0 c

-- An assignment to an unsigned char.
abbrev to_uchar : ℕ → ℕ
to_uchar x = x % 256

-- `char_array_4` from `char_array_3`.
pub sextets : Bytes → Bytes
sextets a =
    to_uchar (bit_and (get_or a 0 0) 0xfc / 4)
    ∷ to_uchar (bit_and (get_or a 0 0) 0x03 * 16 + bit_and (get_or a 1 0) 0xf0 / 16)
    ∷ to_uchar (bit_and (get_or a 1 0) 0x0f * 4 + bit_and (get_or a 2 0) 0xc0 / 64)
    ∷ to_uchar (bit_and (get_or a 2 0) 0x3f)
    ∷ []

pub base64_char : ℕ → ℕ
base64_char x = get_or base64_chars x 0

-- `ret += base64_chars[x]` for each entry.
pub chars : Bytes → Bytes
unfolding base64_char
chars = map base64_char

pub record Encoder : Type 0 where
  pub array3 : Bytes
  pub ret : Bytes

-- One round of the loop over the input.
pub encode_byte : Encoder → ℕ → Encoder
encode_byte s b =
    let a = s.array3 ++ (b ∷ []) in
    if length a == 3
    then record { array3 = []; ret = s.ret ++ chars (sextets a) }
    else record s { array3 = a }

pub encode_loop : Encoder → Bytes → Encoder
encode_loop s [] = s
encode_loop s (b ∷ bs) = encode_loop (encode_byte s b) bs

-- `for (j = i; j < 3; ++j) char_array_3[j] = '\0'`
pub pad : ℕ → ℕ → Bytes → Bytes
pad zero c a = a
pad (suc k) c a = pad k c (a ++ (c ∷ []))

-- What follows the loop, where `i` is the number of bytes left over.
pub encode_rest : Encoder → Bytes
encode_rest s =
    let i = length s.array3 in
    if i == 0
    then s.ret
    else pad (3 - i) b'=' (s.ret ++ chars (take (i + 1) (sextets (pad (3 - i) 0 s.array3))))

unfoldable pub encode : Bytes → Bytes
unfolding encode_loop encode_byte encode_rest sextets chars pad
encode buf = encode_rest (encode_loop (record { array3 = []; ret = [] }) buf)

-- `char_array_3` from the four values in `char_array_4`.
pub octets : Bytes → Bytes
octets a =
    to_uchar (get_or a 0 0 * 4 + bit_and (get_or a 1 0) 0x30 / 16)
    ∷ to_uchar (bit_and (get_or a 1 0) 0x0f * 16 + bit_and (get_or a 2 0) 0x3c / 4)
    ∷ to_uchar (bit_and (get_or a 2 0) 0x03 * 64 + get_or a 3 0)
    ∷ []

pub record Decoder : Type 0 where
  pub array4 : Bytes
  pub decoded : Bytes

pub decode_char : Decoder → ℕ → Decoder
decode_char s c =
    let a = s.array4 ++ (c ∷ []) in
    if length a == 4
    then record { array4 = []; decoded = s.decoded ++ octets (map find a) }
    else record s { array4 = a }

-- The loop stops at the end, at `=` and at a byte outside the alphabet.
pub decode_loop : Decoder → Bytes → Decoder
decode_loop s [] = s
decode_loop s (c ∷ cs) =
    let rest = decode_loop (decode_char s c) cs in
    if not (c == b'=') && is_base64 c then rest else s

pub decode_rest : Decoder → Bytes
decode_rest s =
    let i = length s.array4 in
    if i == 0
    then s.decoded
    else s.decoded ++ take (i - 1) (octets (map find (pad (4 - i) 0 s.array4)))

unfoldable pub decode : Bytes → Bytes
unfolding decode_loop decode_char decode_rest is_base64 find octets pad
decode encoded_string =
    decode_rest (decode_loop (record { array4 = []; decoded = [] }) encoded_string)

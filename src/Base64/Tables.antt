-- ===== src/Base64/Tables.antt =====
-- The bit tests of Base64.cc as arithmetic, and the alphabet read both ways, over all values.
use ip_utils.Base.{
  ℕ, ◌*◌, ◌/◌, ◌%◌, ◌<◌, bit_and, ◌≡◌, refl, Bool, true, not, ◌&&◌, arith, ◌==◌, all_below,
  all_below_sound,
}
use ip_utils.Base64.{is_base64, find, base64_char}

-- One row of bit facts of a byte.
abbrev byte_row : ℕ → Bool
byte_row x =
    (bit_and x 0xfc == x / 4 * 4)
    && (bit_and x 0x03 == x % 4)
    && (bit_and x 0xf0 == x / 16 * 16)
    && (bit_and x 0x0f == x % 16)
    && (bit_and x 0xc0 == x / 64 * 64)
    && (bit_and x 0x3f == x % 64)

byte_table : all_below 256 byte_row ≡ true
unfolding all_below
byte_table = refl

pub byte_bits :
    (x : ℕ)
    → x < 256
    → (bit_and x 0xfc ≡ x / 4 * 4)
      × (bit_and x 0x03 ≡ x % 4)
      × (bit_and x 0xf0 ≡ x / 16 * 16)
      × (bit_and x 0x0f ≡ x % 16)
      × (bit_and x 0xc0 ≡ x / 64 * 64)
      × (bit_and x 0x3f ≡ x % 64)
byte_bits x h = ground (arith, all_below_sound 256 byte_row x byte_table h)

abbrev sextet_row : ℕ → Bool
sextet_row v =
    (bit_and v 0x30 == v / 16 * 16)
    && (bit_and v 0x0f == v % 16)
    && (bit_and v 0x3c == v / 4 * 4)
    && (bit_and v 0x03 == v % 4)
    && (find (base64_char v) == v)
    && (not (base64_char v == b'=') && is_base64 (base64_char v))

sextet_table : all_below 64 sextet_row ≡ true
unfolding all_below find is_base64 base64_char
sextet_table = refl

-- A six-bit value: its bits, and the character that stands for it.
pub sextet_bits :
    (v : ℕ)
    → v < 64
    → (bit_and v 0x30 ≡ v / 16 * 16)
      × (bit_and v 0x0f ≡ v % 16)
      × (bit_and v 0x3c ≡ v / 4 * 4)
      × (bit_and v 0x03 ≡ v % 4)
      × (find (base64_char v) ≡ v)
      × ((not (base64_char v == b'=') && is_base64 (base64_char v)) ≡ true)
sextet_bits v h = ground (arith, all_below_sound 64 sextet_row v sextet_table h)

-- ===== src/Base/Text.antt =====
-- `strncasecmp` and `strtol` of the C library.
use Prim.Native.Nat.{ℕ, zero, suc, ◌+◌, ◌-◌, ◌*◌, ◌^◌, ◌%◌, min}
use mathlib.Core.Path.{◌≡◌, refl, ap₂}
use mathlib.Core.Bool.{Bool, true, ◌&&◌, ◌||◌}
use mathlib.Core.List.{[], ◌∷◌, map}
use mathlib.Core.Logic.{◌≢◌, ◌↔◌}
use native.Mathlib.Omega.{arith}
use ip_utils.Base.Tests.{leb, ◌==◌, if◌then◌else◌}
use ip_utils.Base.Lists.{Bytes, length, All, cstr}
use ip_utils.Base.Scan.{isspace, isdigit, lower, head_byte, tail, span_taken, span_rest}
use ip_utils.Base.Decimal.{value}

-- `!strncasecmp(a, b, n)` on C strings.
unfoldable pub strncasecmp_eq : ℕ → Bytes → Bytes → Bool
strncasecmp_eq zero a b = true
strncasecmp_eq (suc n) a b =
    lower (head_byte a) == lower (head_byte b)
    && (head_byte a == 0 || strncasecmp_eq n (tail a) (tail b))

-- The test that every search for a header makes: `strlen` and then `strncasecmp`.
unfoldable pub same_name : Bytes → Bytes → Bool
same_name a b =
    length (cstr a) == length (cstr b) && strncasecmp_eq (length (cstr b)) (cstr a) (cstr b)

-- A name as the search sees it.
abbrev pub folded : Bytes → Bytes
folded a = map lower (cstr a)

pub cstr-HasNoNul : (a : Bytes) → All (λ c. c ≢ 0) (cstr a)
cstr-HasNoNul [] = tt
cstr-HasNoNul (c ∷ cs) = ground (arith, cstr-HasNoNul cs)

same_folded :
    (a b : Bytes)
    → All (λ c. c ≢ 0) a
    → All (λ c. c ≢ 0) b
    → ((length a == length b && strncasecmp_eq (length b) a b) ≡ true) ↔ (map lower a ≡ map lower b)
unfolding strncasecmp_eq
same_folded [] [] ha hb = (λ h. refl, λ h. refl)
same_folded [] (y ∷ b) ha hb = (λ h. ground arith, λ h. cc)
same_folded (x ∷ a) [] ha hb = (λ h. ground arith, λ h. cc)
same_folded (x ∷ a) (y ∷ b) (hx, ha) (hy, hb) = (
  λ h. ap₂ (λ (p : ℕ) (q : Bytes). p ∷ q) (ground arith) ((same_folded a b ha hb).0 (ground arith)),
  λ h. ground (arith, (same_folded a b ha hb).1),
)

-- Two names are taken for one exactly when they agree up to the case of ASCII letters.
pub same_name_iff : (a b : Bytes) → (same_name a b ≡ true) ↔ (folded a ≡ folded b)
unfolding same_name
same_name_iff a b = same_folded (cstr a) (cstr b) (cstr-HasNoNul a) (cstr-HasNoNul b)

abbrev pub long_max : ℕ
long_max = 2 ^ 63 - 1

-- A long as its 64-bit pattern, from its sign and size.
abbrev pub to_long : Bool → ℕ → ℕ
to_long minus v = if minus then (2 ^ 64 - min v (2 ^ 63)) % 2 ^ 64 else min v long_max

abbrev pub skip_sign : Bytes → Bytes
skip_sign s = if head_byte s == b'-' || head_byte s == b'+' then tail s else s

-- `strtol(s, NULL, 10)`
unfoldable pub strtol : Bytes → ℕ
strtol s =
    let number = span_rest isspace s in
    to_long (head_byte number == b'-') (value (span_taken isdigit (skip_sign number)))

abbrev pub is_hex : ℕ → Bool
is_hex c = isdigit c || leb b'a' (lower c) && leb (lower c) b'f'

abbrev pub hex_digit : ℕ → ℕ
hex_digit c = if isdigit c then c - b'0' else lower c - b'a' + 10

unfoldable pub hex_value : ℕ → Bytes → ℕ
hex_value n [] = n
hex_value n (c ∷ cs) = hex_value (n * 16 + hex_digit c) cs

-- An optional `0x` in front of a hexadecimal digit.
abbrev pub skip_prefix : Bytes → Bytes
skip_prefix s =
    if head_byte s == b'0'
      && lower (head_byte (tail s)) == b'x'
      && is_hex (head_byte (tail (tail s)))
    then tail (tail s)
    else s

-- `strtol(s, NULL, 16)`
unfoldable pub strtol_hex : Bytes → ℕ
strtol_hex s =
    let number = span_rest isspace s in
    to_long (head_byte number == b'-')
      (hex_value 0 (span_taken is_hex (skip_prefix (skip_sign number))))

-- ===== src/Base/Decimal.antt =====
-- Decimal numbers: `%d` of a number below 10 ^ 20, and the digits that `strtol` and `strtoul` read.
use Prim.Native.Nat.{ℕ, zero, suc, ◌+◌, ◌-◌, ◌*◌, ◌/◌, ◌%◌, ◌^◌, ◌<◌}
use mathlib.Core.Logic.{inl, inr}
use mathlib.Core.Path.{ap, ◌≡◌, ◌∙◌}
use mathlib.Core.Bool.{true}
use mathlib.Core.List.{[], ◌∷◌}
use native.Mathlib.Omega.{arith}
use native.Mathlib.Nat.{pow-suc}
use ip_utils.Base.Tests.{ltb, if◌then◌else◌, Bool-cases}
use ip_utils.Base.Lists.{Bytes, length, All}
use ip_utils.Base.Scan.{isdigit}

digits_onto : ℕ → ℕ → Bytes → Bytes
digits_onto zero n out = out
digits_onto (suc f) n out =
    let rest = digits_onto f (n / 10) ((b'0' + n % 10) ∷ out) in
    if ltb n 10 then (b'0' + n) ∷ out else rest

unfoldable pub decimal : ℕ → Bytes
unfolding digits_onto
decimal n = digits_onto 20 n []

-- `%d` of an int, from its 32-bit pattern or from a wider number cut down to it.
abbrev pub print_int : ℕ → Bytes
print_int n =
    let low = n % 2 ^ 32 in if ltb low (2 ^ 31) then decimal low else b'-' ∷ decimal (2 ^ 32 - low)

-- The number that a run of digits spells behind `n`.
pub value_onto : ℕ → Bytes → ℕ
value_onto n [] = n
value_onto n (c ∷ cs) = value_onto (n * 10 + (c - b'0')) cs

unfoldable pub value : Bytes → ℕ
unfolding value_onto
value = value_onto 0

value_onto-digits_onto :
    (f n : ℕ) (out : Bytes) → n < 10 ^ f → value_onto 0 (digits_onto f n out) ≡ value_onto n out
unfolding value_onto digits_onto
value_onto-digits_onto zero n out h = ap (λ (k : ℕ). value_onto k out) (omega arith)
value_onto-digits_onto (suc f) n out h = elim (Bool-cases (ltb n 10)) [
  | inl small ↦ rw small (ap (λ (k : ℕ). value_onto k out) (omega arith))
  | inr big ↦ rw big (
      value_onto-digits_onto f (n / 10) ((b'0' + n % 10) ∷ out) (omega (arith, pow-suc 10 f))
      ∙ ap (λ (k : ℕ). value_onto k out) (omega arith))
]

-- Every number below 10 ^ 20 is read back from its decimal print.
pub value-decimal : (n : ℕ) → n < 10 ^ 20 → value (decimal n) ≡ n
unfolding value decimal
value-decimal n h = value_onto-digits_onto 20 n [] h

digits_onto-isdigit :
    (f n : ℕ) (out : Bytes)
    → All (λ c. isdigit c ≡ true) out
    → All (λ c. isdigit c ≡ true) (digits_onto f n out)
unfolding digits_onto isdigit
digits_onto-isdigit zero n out h = h
digits_onto-isdigit (suc f) n out h =
    ground (arith, digits_onto-isdigit f (n / 10) ((b'0' + n % 10) ∷ out))

pub decimal-isdigit : (n : ℕ) → All (λ c. isdigit c ≡ true) (decimal n)
unfolding decimal
decimal-isdigit n = digits_onto-isdigit 20 n [] tt

digits_onto-ne-nil : (f n : ℕ) (out : Bytes) → 0 < length out → 0 < length (digits_onto f n out)
unfolding digits_onto
digits_onto-ne-nil zero n out h = h
digits_onto-ne-nil (suc f) n out h =
    ground (arith, digits_onto-ne-nil f (n / 10) ((b'0' + n % 10) ∷ out))

pub decimal-ne-nil : (n : ℕ) → 0 < length (decimal n)
unfolding decimal digits_onto
decimal-ne-nil n = ground (arith, digits_onto-ne-nil 19 (n / 10) ((b'0' + n % 10) ∷ []))

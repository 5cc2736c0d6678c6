-- ===== src/Base/Scan.antt =====
-- Walking a buffer: `rest` is what a walk pointer still has before it, so the count `n` of bytes
-- left is its length, and a byte at the pointer is the head. Behind a C string stands a NUL.
use Prim.Native.Nat.{ℕ, ◌<◌, ◌+◌, ◌≤◌}
use mathlib.Core.Path.{◌≡◌, refl}
use mathlib.Core.Bool.{Bool, true, false, not, ◌&&◌, ◌||◌}
use mathlib.Core.List.{[], ◌∷◌, ◌++◌}
use mathlib.Core.Logic.{◌⊎◌, inl, ◌≢◌}
use native.Mathlib.Omega.{arith}
use ip_utils.Base.Tests.{leb, ◌==◌, if◌then◌else◌}
use ip_utils.Base.Lists.{Bytes, length, All}

-- A parser's state after a part of its body: go on, or an early return.
pub data Step {ℓ} (S : Type ℓ) : Type ℓ where
  next : S → Step S
  halt : S → Step S

infixl 5 ◌>>=◌
abbrev pub ◌>>=◌ {ℓ} : {S : Type ℓ} → Step S → (S → Step S) → Step S
next s >>= f = f s
halt s >>= f = halt s

-- `isspace` and `isdigit` of the C locale.
unfoldable pub isspace : ℕ → Bool
isspace c = c == b' ' || leb 9 c && leb c 13

unfoldable pub isdigit : ℕ → Bool
isdigit c = leb b'0' c && leb c b'9'

-- `tolower` of the C locale.
abbrev pub lower : ℕ → ℕ
lower c = if leb b'A' c && leb c b'Z' then c + 32 else c

-- `*buf_ptr`
abbrev pub head_byte : Bytes → ℕ
head_byte [] = 0
head_byte (c ∷ cs) = c

-- `buf_ptr++`
abbrev pub tail : Bytes → Bytes
tail [] = []
tail (c ∷ cs) = cs

pub length-tail : (xs : Bytes) → length (tail xs) ≤ length xs
length-tail [] = omega arith
length-tail (x ∷ xs) = omega arith

abbrev pub is_empty : Bytes → Bool
is_empty [] = true
is_empty (c ∷ cs) = false

-- `while (n > 0 && keep(*buf_ptr)) *ptr++ = *buf_ptr++;`, what is copied and what is left.
module _ (keep : ℕ → Bool) where
  unfoldable pub span_taken : Bytes → Bytes
  span_taken [] = []
  span_taken (c ∷ cs) = if keep c then c ∷ span_taken cs else []

  unfoldable pub span_rest : Bytes → Bytes
  span_rest [] = []
  span_rest (c ∷ cs) = if keep c then span_rest cs else c ∷ cs

  pub span-append : (buf : Bytes) → span_taken buf ++ span_rest buf ≡ buf
  unfolding span_taken span_rest
  span-append [] = refl
  span-append (c ∷ cs) = ground (arith, span-append cs)

  pub length-span_rest : (buf : Bytes) → length (span_rest buf) ≤ length buf
  unfolding span_rest
  length-span_rest [] = omega arith
  length-span_rest (c ∷ cs) = ground (arith, length-span_rest cs)

  -- The walk ends at the end of the buffer or at a byte that fails the test.
  pub span_rest_stops :
      (buf : Bytes) → (span_rest buf ≡ []) ⊎ (keep (head_byte (span_rest buf)) ≡ false)
  unfolding span_rest
  span_rest_stops [] = inl refl
  span_rest_stops (c ∷ cs) = ground (arith, span_rest_stops cs)

  pub span_taken_stop :
      (xs : Bytes) (c : ℕ) (rest : Bytes)
      → All (λ x. keep x ≡ true) xs
      → keep c ≡ false
      → span_taken (xs ++ (c ∷ rest)) ≡ xs
  unfolding span_taken
  span_taken_stop [] c rest h e = ground arith
  span_taken_stop (x ∷ xs) c rest (hx, h) e = ground (arith, span_taken_stop xs c rest h e)

  pub span_rest_stop :
      (xs : Bytes) (c : ℕ) (rest : Bytes)
      → All (λ x. keep x ≡ true) xs
      → keep c ≡ false
      → span_rest (xs ++ (c ∷ rest)) ≡ c ∷ rest
  unfolding span_rest
  span_rest_stop [] c rest h e = ground arith
  span_rest_stop (x ∷ xs) c rest (hx, h) e = ground (arith, span_rest_stop xs c rest h e)

  pub span_taken-All : (xs : Bytes) → All (λ x. keep x ≡ true) xs → span_taken xs ≡ xs
  unfolding span_taken
  span_taken-All [] h = refl
  span_taken-All (x ∷ xs) (hx, h) = ground (arith, span_taken-All xs h)

  pub span_rest-All : (xs : Bytes) → All (λ x. keep x ≡ true) xs → span_rest xs ≡ []
  unfolding span_rest
  span_rest-All [] h = refl
  span_rest-All (x ∷ xs) (hx, h) = ground (arith, span_rest-All xs h)

-- What stands at the end of a walk: nothing, or a byte that fails the test.
abbrev pub Stops : (ℕ → Bool) → Bytes → Type 0
Stops keep t = (t ≡ []) ⊎ (keep (head_byte t) ≡ false)

abbrev pub AllKept : (ℕ → Bool) → Bytes → Type 0
AllKept keep = All (λ c. keep c ≡ true)

module _ (keep : ℕ → Bool) where
  pub span_taken_of :
      (xs t : Bytes) → AllKept keep xs → Stops keep t → span_taken keep (xs ++ t) ≡ xs
  unfolding span_taken
  span_taken_of [] [] h s = refl
  span_taken_of [] (c ∷ cs) h s = ground arith
  span_taken_of (x ∷ xs) t (hx, h) s = ground (arith, span_taken_of xs t h s)

  pub span_rest_of : (xs t : Bytes) → AllKept keep xs → Stops keep t → span_rest keep (xs ++ t) ≡ t
  unfolding span_rest
  span_rest_of [] [] h s = refl
  span_rest_of [] (c ∷ cs) h s = ground arith
  span_rest_of (x ∷ xs) t (hx, h) s = ground (arith, span_rest_of xs t h s)

-- A weaker test keeps what a stronger one keeps.
pub AllKept-mono :
    (p q : ℕ → Bool) (xs : Bytes)
    → ((c : ℕ) → p c ≡ true → q c ≡ true)
    → AllKept p xs
    → AllKept q xs
AllKept-mono p q [] f h = tt
AllKept-mono p q (x ∷ xs) f (hx, h) = (f x hx, AllKept-mono p q xs f h)

pub is_empty-false : (xs : Bytes) → is_empty xs ≡ false → 0 < length xs
is_empty-false [] h = cc
is_empty-false (x ∷ xs) h = omega arith

pub is_empty-append : (xs t : Bytes) → 0 < length xs → is_empty (xs ++ t) ≡ false
is_empty-append [] t h = absurd (omega arith)
is_empty-append (x ∷ xs) t h = refl

pub is_empty-append_cons : (xs : Bytes) (c : ℕ) (t : Bytes) → is_empty (xs ++ (c ∷ t)) ≡ false
is_empty-append_cons [] c t = refl
is_empty-append_cons (x ∷ xs) c t = refl

pub AllKept-append :
    (keep : ℕ → Bool) (xs ys : Bytes) → AllKept keep xs → AllKept keep ys → AllKept keep (xs ++ ys)
AllKept-append keep [] ys hx hy = hy
AllKept-append keep (x ∷ xs) ys (h, hx) hy = (h, AllKept-append keep xs ys hx hy)

-- Every byte of a buffer passes a test.
abbrev pub all : (ℕ → Bool) → Bytes → Bool
all keep [] = true
all keep (x ∷ xs) = keep x && all keep xs

pub kept_all : (keep : ℕ → Bool) (xs : Bytes) → all keep xs ≡ true → AllKept keep xs
kept_all keep [] h = tt
kept_all keep (x ∷ xs) h = (ground arith, kept_all keep xs (ground arith))

pub kept_nul : (xs : Bytes) → all (λ c. not (c == 0)) xs ≡ true → All (λ c. c ≢ 0) xs
kept_nul [] h = tt
kept_nul (x ∷ xs) h = (ground arith, kept_nul xs (ground arith))

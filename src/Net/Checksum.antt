-- ===== src/Net/Checksum.antt =====
-- IPComm.cc, calculate_cksum: the checksum of RFC 1071, on a little-endian host.
use ip_utils.Base.{
  ℕ, zero, suc, ◌+◌, ◌-◌, ◌*◌, ◌/◌, ◌%◌, ◌^◌, ◌≤◌, ◌<◌, ◌≡◌, refl, ap, ◌∙◌, ◌≢◌, inl, inr, false,
  Option, none, some, [], ◌∷◌, ◌++◌, arith, ltb, ◌==◌, if◌then◌else◌, Bool-cases, Bytes, length,
  length-append, All, All-append,
}

-- The loop over the 16-bit words, in an accumulator of 32 bits, and the left-over byte.
unfoldable pub sum_words : ℕ → Bytes → ℕ
sum_words sum [] = sum
sum_words sum (x ∷ []) = (sum + x) % 2 ^ 32
sum_words sum (x ∷ y ∷ bs) = sum_words ((sum + (x + 256 * y)) % 2 ^ 32) bs

-- `while (sum >> 16) sum = (sum & 0xffff) + (sum >> 16);`, `none` is fuel that ran out.
unfoldable pub fold_sum : ℕ → ℕ → Option ℕ
fold_sum zero sum = none
fold_sum (suc fuel) sum =
    let rest = fold_sum fuel (sum % 2 ^ 16 + sum / 2 ^ 16) in
    if ltb 0 (sum / 2 ^ 16) then rest else some sum

abbrev complement : Option ℕ → Option ℕ
complement none = none
complement (some sum) = some ((2 ^ 32 - 1 - sum) % 2 ^ 16)

unfoldable pub calculate_cksum : Bytes → Option ℕ
unfolding sum_words fold_sum
calculate_cksum buf = complement (fold_sum 3 (sum_words 0 buf))

-- The sum of the words with no bound.
unfoldable pub total : Bytes → ℕ
total [] = 0
total (x ∷ []) = x
total (x ∷ y ∷ bs) = x + 256 * y + total bs

abbrev pub AllBytes : Bytes → Type 0
AllBytes = All (λ x. x < 256)

sum_words-total :
    (sum : ℕ) (buf : Bytes)
    → AllBytes buf
    → 2 * sum + 65535 * (length buf + 1) < 2 ^ 33
    → sum_words sum buf ≡ sum + total buf
unfolding sum_words total
sum_words-total sum [] b h = omega arith
sum_words-total sum (x ∷ []) (bx, b) h = omega arith
sum_words-total sum (x ∷ y ∷ bs) (bx, (by, b)) h =
    let small : (sum + (x + 256 * y)) % 2 ^ 32 ≡ sum + (x + 256 * y) = omega arith in
    rw small (sum_words-total (sum + (x + 256 * y)) bs b (omega arith) ∙ omega arith)

-- A word that is congruent to `sum` modulo 65535 and is 0 only for 0.
fold_step :
    (fuel sum : ℕ)
    → ((r : ℕ) × (fold_sum fuel (sum % 2 ^ 16 + sum / 2 ^ 16) ≡ some r)
        × (r < 2 ^ 16)
        × (r % 65535 ≡ (sum % 2 ^ 16 + sum / 2 ^ 16) % 65535)
        × (r ≡ 0 → sum % 2 ^ 16 + sum / 2 ^ 16 ≡ 0)
        × (sum % 2 ^ 16 + sum / 2 ^ 16 ≡ 0 → r ≡ 0))
    → (r : ℕ) × (fold_sum (suc fuel) sum ≡ some r)
      × (r < 2 ^ 16)
      × (r % 65535 ≡ sum % 65535)
      × (r ≡ 0 → sum ≡ 0)
      × (sum ≡ 0 → r ≡ 0)
unfolding fold_sum
fold_step fuel sum (r, run, small, same, zeros, none_left) =
    elim (Bool-cases (ltb 0 (sum / 2 ^ 16))) [
      | inl more ↦ (
        r,
        rw more run,
        small,
        omega (arith, same),
        λ e. omega (arith, zeros e),
        λ e. none_left (omega arith),
      )
      | inr done ↦ (sum, rw done refl, ground arith, refl, λ e. e, λ e. e)
    ]

fold_end :
    (fuel sum : ℕ)
    → sum < 2 ^ 16
    → (r : ℕ) × (fold_sum (suc fuel) sum ≡ some r)
      × (r < 2 ^ 16)
      × (r % 65535 ≡ sum % 65535)
      × (r ≡ 0 → sum ≡ 0)
      × (sum ≡ 0 → r ≡ 0)
unfolding fold_sum
fold_end fuel sum h =
    let done : ltb 0 (sum / 2 ^ 16) ≡ false = ground arith in
    (sum, rw done refl, h, refl, λ e. e, λ e. e)

fold_sum_lem :
    (sum : ℕ)
    → sum < 2 ^ 32
    → (r : ℕ) × (fold_sum 3 sum ≡ some r)
      × (r < 2 ^ 16)
      × (r % 65535 ≡ sum % 65535)
      × (r ≡ 0 → sum ≡ 0)
      × (sum ≡ 0 → r ≡ 0)
fold_sum_lem sum h =
    let once = sum % 2 ^ 16 + sum / 2 ^ 16 in
    fold_step 2 sum (fold_step 1 once (fold_end 0 (once % 2 ^ 16 + once / 2 ^ 16) (omega arith)))

total-bound : (buf : Bytes) → AllBytes buf → 2 * total buf ≤ 65535 * (length buf + 1)
unfolding total
total-bound [] b = omega arith
total-bound (x ∷ []) (bx, b) = omega arith
total-bound (x ∷ y ∷ bs) (bx, (by, b)) = omega (arith, total-bound bs b)

total-append :
    (buf : Bytes) (lo hi : ℕ)
    → length buf % 2 ≡ 0
    → total (buf ++ (lo ∷ hi ∷ [])) ≡ total buf + (lo + 256 * hi)
unfolding total
total-append [] lo hi h = omega arith
total-append (x ∷ []) lo hi h = absurd (omega arith)
total-append (x ∷ y ∷ bs) lo hi h = omega (arith, total-append bs lo hi (omega arith))

AllBytes-append :
    (buf : Bytes) (lo hi : ℕ)
    → AllBytes buf
    → lo < 256
    → hi < 256
    → AllBytes (buf ++ (lo ∷ hi ∷ []))
AllBytes-append buf lo hi b hl hh = All-append (λ x. x < 256) buf (lo ∷ hi ∷ []) b (hl, (hh, tt))

-- For a buffer of at most 131072 bytes the loops end with no overflow. The checksum is the
-- complement of the sum of the words modulo 65535, and it is 65535 only when the words are all 0.
pub calculate_cksum_lem :
    (buf : Bytes)
    → AllBytes buf
    → length buf ≤ 131072
    → (c : ℕ) × (calculate_cksum buf ≡ some c)
      × (c < 2 ^ 16)
      × ((c + total buf) % 65535 ≡ 0)
      × (total buf ≡ 0 → c ≡ 65535)
      × (c ≡ 65535 → total buf ≡ 0)
unfolding calculate_cksum
calculate_cksum_lem buf b h =
    let bounded = total-bound buf b in
    let sums = sum_words-total 0 buf b (omega arith) in
    let (r, run, small, same, zeros, none_left) =
      fold_sum_lem (sum_words 0 buf) (omega (arith, sums)) in
    let same' : r % 65535 ≡ total buf % 65535 = omega (arith, same, sums) in
    (
      65535 - r,
      rw run (ap some (omega arith)),
      omega arith,
      omega (arith, same'),
      λ z. omega (arith, none_left (omega (arith, sums))),
      λ z. omega (arith, zeros (omega arith), sums),
    )

-- The arithmetic of a stored checksum.
ends :
    (c' c sum sum' : ℕ)
    → sum' ≡ sum + c
    → c' < 2 ^ 16
    → (c' + sum') % 65535 ≡ 0
    → (c + sum) % 65535 ≡ 0
    → (c' ≡ 65535 → sum' ≡ 0)
    → (sum ≡ 0 → c ≡ 65535)
    → c' ≡ 0
ends c' c sum sum' e small h h' zeros one = elim (Bool-cases (c' == 65535)) [
  | inl full ↦
      let none_set = zeros (ground arith) in absurd (omega (arith, none_set, one (omega arith)))
  | inr other ↦ let ne : c' ≢ 65535 = ground arith in omega arith
]

-- Where the checksum of a buffer of whole words is stored behind it, low byte first, the buffer
-- checks: its checksum is 0. The buffer has at most 131070 bytes.
pub calculate_cksum-checks :
    (buf : Bytes)
    → AllBytes buf
    → length buf ≤ 131070
    → length buf % 2 ≡ 0
    → (c : ℕ) × (calculate_cksum buf ≡ some c)
      × (c < 2 ^ 16)
      × (calculate_cksum (buf ++ (c % 256 ∷ c / 256 ∷ [])) ≡ some 0)
calculate_cksum-checks buf b h even =
    let (c, run, small, sum, one, none_set) = calculate_cksum_lem buf b (omega arith) in
    let stored = buf ++ (c % 256 ∷ c / 256 ∷ []) in
    let all = AllBytes-append buf (c % 256) (c / 256) b (omega arith) (omega arith) in
    let (c', run', small', sum', one', none_set') =
      calculate_cksum_lem stored all (omega (arith, length-append buf (c % 256 ∷ c / 256 ∷ []))) in
    let whole = total-append buf (c % 256) (c / 256) even in
    let whole' : total stored ≡ total buf + c = omega (arith, whole) in
    let zero_sum : c' ≡ 0 =
      ends c' c (total buf) (total stored) whole' small' sum' sum none_set' one in
    (c, run, small, run' ∙ ap some zero_sum)

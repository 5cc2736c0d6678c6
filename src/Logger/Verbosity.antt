-- ===== src/Logger/Verbosity.antt =====
-- Logger.cc: what the options -v and -q do to a log.
use ip_utils.Base.{ℕ, suc, ◌+◌, ◌≡◌, refl, ap, Option, none, some, List, [], ◌∷◌, map, arith, Bytes}
use ip_utils.Logger.{
  louder, quieter, all_but_first, decrement_mechanism_priority, increment_mechanism_priority,
  passes, targets, tail_of, log, Logger,
}

quieter-louder : (p : Option ℕ) → quieter (louder p) ≡ p
quieter-louder none = refl
quieter-louder (some p) = let e : p + 1 ≡ suc p = omega arith in rw e refl

map-quieter-louder : (xs : List (Option ℕ)) → map quieter (map louder xs) ≡ xs
map-quieter-louder [] = refl
map-quieter-louder (x ∷ xs) = rw (quieter-louder x) (ap (◌∷◌ x) (map-quieter-louder xs))

all_but_first-louder : (xs : List (Option ℕ)) → all_but_first quieter (all_but_first louder xs) ≡ xs
all_but_first-louder [] = refl
all_but_first-louder (x ∷ xs) = ap (◌∷◌ x) (map-quieter-louder xs)

passes-louder : (p : ℕ) (x : Option ℕ) → passes (p + 1) (louder x) ≡ passes p x
passes-louder p none = refl
passes-louder p (some n) = ground arith

targets-louder :
    (p i : ℕ) (xs : List (Option ℕ)) → targets (p + 1) i (map louder xs) ≡ targets p i xs
unfolding targets
targets-louder p i [] = refl
targets-louder p i (x ∷ xs) = rw (passes-louder p x, targets-louder p (i + 1) xs) refl

-- One step louder and one step quieter gives back every log, and a log that is one step louder
-- sends a message to exactly those mechanisms that one of the next more urgent priority went to.
pub increment_mechanism_priority_lem :
    (names : List (Bytes × ℕ)) (l : Logger) (p : ℕ) (now body now' body' : Bytes)
    → (decrement_mechanism_priority (increment_mechanism_priority l) ≡ l)
      × ((log names (increment_mechanism_priority l) (p + 1) now body).1
          ≡ (log names l p now' body').1)
unfolding decrement_mechanism_priority increment_mechanism_priority log
increment_mechanism_priority_lem names l p now body now' body' = (
  ap (λ (xs : List (Option ℕ)). record l { mechanisms = xs }) (all_but_first-louder l.mechanisms),
  shifted l.mechanisms,
)
  where
    shifted :
        (xs : List (Option ℕ))
        → targets (p + 1) 1 (tail_of (all_but_first louder xs)) ≡ targets p 1 (tail_of xs)
    shifted [] = refl
    shifted (x ∷ xs) = targets-louder p 1 xs

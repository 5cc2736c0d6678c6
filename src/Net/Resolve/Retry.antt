-- ===== src/Net/Resolve/Retry.antt =====
-- IPComm.cc: how often a lookup is made.
use ip_utils.Base.{ℕ, zero, suc, ◌+◌, ◌≡◌, refl, arith}
use ip_utils.Net.Resolve.{retry, Lookup, found, again, no_luck}

data Answer {A : Type 0} (r : Lookup A) : Type 0 where
  hit : (a : A) → r ≡ found a → Answer r
  miss : (n : ℕ) → r ≡ no_luck n → Answer r
  wait : r ≡ again → Answer r

Lookup-cases : {A : Type 0} (r : Lookup A) → Answer r
Lookup-cases (found a) = hit a refl
Lookup-cases (no_luck n) = miss n refl
Lookup-cases again = wait refl

module _ {K A : Type 0} (call : K → K × Lookup A) (clock : K → ℕ) where
  -- A lookup with `n` retries ends. The calls that it makes and the retries that it has left are
  -- `n + 1` together, and it gives up with "try again" only when none are left.
  pub retry_calls :
      (n : ℕ) (k : K)
      → ((k' : K) → clock (call k').0 ≡ clock k' + 1)
      → let r = retry n call k in (clock r.0 + r.2 ≡ clock k + (n + 1)) × (r.1 ≡ again → r.2 ≡ 0)
  unfolding retry
  retry_calls zero k ticks = (omega (arith, ticks k), λ e. refl)
  retry_calls (suc n) k ticks = elim (Lookup-cases (call k).1) [
    | hit a e ↦ rw (e, retry) (omega (arith, ticks k), λ p. cc)
    | miss m e ↦ rw (e, retry) (omega (arith, ticks k), λ p. cc)
    | wait e ↦
        let (made, spent) = retry_calls n (call k).0 ticks in
        rw (e, retry) (omega (arith, made, ticks k), spent)
  ]

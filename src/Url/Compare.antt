-- ===== src/Url/Compare.antt =====
-- URL.cc, CompareTuples: whether two URLs name the same host and port.
use ip_utils.Base.{
  ℕ, ◌≡◌, refl, Bool, true, false, not, ◌&&◌, ◌||◌, Option, none, some, ◌==◌, if◌then◌else◌, Bytes,
  cstr, is_empty,
}
use ip_utils.File.{same_bytes}
use ip_utils.Net.Resolve.{get_reverse_dns, Resolver}
use ip_utils.Url.{Url}

-- The test of the ports: with `exact` they are equal, else both are set and differ, or not.
abbrev pub ports_match : ℕ → ℕ → Bool → Bool
ports_match p q true = p == q
ports_match p q false = p == 0 || (q == 0 || p == q)

-- The addresses as strings; `none` is a string that is made from NULL.
abbrev same_address : Option Bytes → Option Bytes → Option Bool
same_address none ip2 = none
same_address (some ip1) none = none
same_address (some ip1) (some ip2) =
    some (not (is_empty ip1) && (not (is_empty ip2) && same_bytes ip1 ip2))

abbrev both : Option Bool → Bool → Option Bool
both none ports = none
both (some same) ports = some (same && ports)

module _ {K : Type 0} (net : Resolver K) where
  -- `URL::CompareTuples`; `none` is undefined behaviour.
  unfoldable pub compare_tuples : K → Url → Url → Bool → K × Option Bool
  unfolding get_reverse_dns
  compare_tuples k a b exact =
      let ports = ports_match a.port b.port exact in
      let (k', ip1) = get_reverse_dns net k (cstr a.host) in
      let (k'', ip2) = get_reverse_dns net k' (cstr b.host) in
      if same_bytes a.host b.host then (k, some ports) else (k'', both (same_address ip1 ip2) ports)

  -- Two URLs with different hosts, the first of which has no address, are not compared: the code
  -- makes a string from the NULL pointer that the lookup returns.
  pub compare_tuples_unresolved :
      (k : K) (a b : Url) (exact : Bool)
      → same_bytes a.host b.host ≡ false
      → (get_reverse_dns net k (cstr a.host)).1 ≡ none
      → (compare_tuples k a b exact).1 ≡ none
  unfolding compare_tuples
  compare_tuples_unresolved k a b exact differ missing = rw (differ, missing) refl

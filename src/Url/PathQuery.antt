-- ===== src/Url/PathQuery.antt =====
-- `set_path` on a path that carries a query.
use ip_utils.Base.{
  ℕ, ◌+◌, ◌-◌, ◌%◌, ◌^◌, ◌<◌, ◌≡◌, refl, ◌≢◌, true, false, some, [], ◌∷◌, ◌++◌, arith, leb, ◌==◌,
  Bytes, length, get_or, length-append, All, cstr, take_all, drop_append, span_taken_stop,
}
use ip_utils.ErrorHandler
use ip_utils.ErrorHandler.{ErrorHandler}
use ip_utils.Url.{
  has_nasty, is_str_tainted, set_query, in_path, copied, set_path_rest, set_path, Url,
}

last_ne_zero :
    (c : ℕ) (q : Bytes) → c ≢ 0 → All (λ x. x ≢ 0) q → (get_or (c ∷ q) (length q) 0 == 0) ≡ false
last_ne_zero c [] h all = ground arith
last_ne_zero c (x ∷ xs) h (hx, all) = last_ne_zero x xs hx all

copied_stop :
    (p q : Bytes)
    → All (λ c. in_path c ≡ true) p
    → copied (length (p ++ (b'?' ∷ q))) (p ++ (b'?' ∷ q)) ≡ p
copied_stop p q h =
    rw (take_all (length (p ++ (b'?' ∷ q))) (p ++ (b'?' ∷ q)) (omega arith))
      (span_taken_stop in_path p b'?' q h refl)

-- The length that is handed on is one short, so the query is never read: given a clean path `p`
-- with `?` and any text `q` behind it, `set_path` stores `p` and raises an event.
pub set_path_query_fails :
    (u : Url) (e : ErrorHandler) (p q : Bytes)
    → All (λ c. in_path c ≡ true) p
    → All (λ c. c ≢ 0) q
    → has_nasty (cstr (p ++ (b'?' ∷ q))) ≡ false
    → length q < 2 ^ 64
    → let r = set_path u e (some (p ++ (b'?' ∷ q))) (length (p ++ (b'?' ∷ q))) in
      (r.0 ≡ record u { path = p }) × (r.1.event_flag ≡ true)
unfolding set_path set_path_rest set_query is_str_tainted ErrorHandler.init
set_path_query_fails u e p q hp hq clean small =
    let positive : leb (length (p ++ (b'?' ∷ q))) 0 ≡ false =
      ground (arith, length-append p (b'?' ∷ q)) in
    let left : (length (p ++ (b'?' ∷ q)) + 2 ^ 64 - (length p + 1)) % 2 ^ 64 ≡ length q =
      omega (arith, length-append p (b'?' ∷ q)) in
    rw
      (
        copied_stop p q hp,
        drop_append p (b'?' ∷ q),
        clean,
        positive,
        left,
        last_ne_zero b'?' q (omega arith) hq,
      )
      (refl, refl)

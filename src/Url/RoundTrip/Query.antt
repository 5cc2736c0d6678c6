-- ===== src/Url/RoundTrip/Query.antt =====
-- `set_query` and the query part of `InitFromBuf` on printed queries.
use ip_utils.Base.{
  ℕ, zero, suc, ◌≤◌, ◌<◌, ◌≡◌, refl, sym, ap, ◌∙◌, ◌≢◌, inl, inr, Bool, false, not, ◌&&◌, some,
  List, [], ◌∷◌, ◌++◌, append_assoc, append-nil, arith, ltb, ◌==◌, Bytes, length, get_or,
  length-append, All, All-append, take_all, cstr-All, isspace, head_byte, Stops, AllKept,
  span_taken_of, span_rest_of, AllKept-mono, is_empty-append, is_empty-append_cons, AllKept-append,
  next,
}
use ip_utils.ErrorHandler.{ErrorHandler}
use ip_utils.Url.{max_size, in_key, in_value, skip_delimiter, query_loop, set_query, QueryInfo, Url}
use ip_utils.Url.Parse.{to_query_end, parse_query}
use ip_utils.Url.RoundTrip.PrintText.{query_text, queries_text, HasNoNul}

-- A byte that a key may hold, and one that a value may hold, in a query before a fragment.
abbrev pub key_byte : ℕ → Bool
key_byte c = in_key c && not (c == b'#') && not (c == 0)

abbrev pub value_byte : ℕ → Bool
value_byte c = in_value c && not (c == b'#') && not (c == 0)

abbrev pub IsQuery : List QueryInfo → Type 0
IsQuery = All (λ q. AllKept key_byte q.key × AllKept value_byte q.value)

pub key-HasNoNul : (xs : Bytes) → AllKept key_byte xs → HasNoNul xs
key-HasNoNul [] h = tt
key-HasNoNul (x ∷ xs) (hx, h) = (ground arith, key-HasNoNul xs h)

pub value-HasNoNul : (xs : Bytes) → AllKept value_byte xs → HasNoNul xs
value-HasNoNul [] h = tt
value-HasNoNul (x ∷ xs) (hx, h) = (ground arith, value-HasNoNul xs h)

query_loop_end : (fuel : ℕ) (u : Url) (e : ErrorHandler) → query_loop fuel u e [] ≡ (u, e)
unfolding query_loop
query_loop_end zero u e = refl
query_loop_end (suc fuel) u e = refl

-- One round of the loop, on a key, a value and what stands behind it.
query_loop_round :
    (fuel : ℕ) (u : Url) (e : ErrorHandler) (q : QueryInfo) (t : Bytes)
    → AllKept key_byte q.key
    → AllKept value_byte q.value
    → Stops in_value t
    → query_loop (suc fuel) u e (q.key ++ (b'=' ∷ (q.value ++ t)))
      ≡ query_loop fuel (record u { query = u.query ++ (q ∷ []) }) e (skip_delimiter t)
unfolding query_loop
query_loop_round fuel u e q t hk hv s =
    let key : AllKept in_key q.key = AllKept-mono key_byte in_key q.key (λ c h. ground arith) hk in
    let value : AllKept in_value q.value =
      AllKept-mono value_byte in_value q.value (λ c h. ground arith) hv in
    rw
      (
        span_rest_of in_key q.key (b'=' ∷ (q.value ++ t)) key (inr refl),
        span_taken_of in_key q.key (b'=' ∷ (q.value ++ t)) key (inr refl),
        span_rest_of in_value q.value t value s,
        span_taken_of in_value q.value t value s,
        cstr-All q.key (key-HasNoNul q.key hk),
        cstr-All q.value (value-HasNoNul q.value hv),
      )
      (rw (is_empty-append_cons q.key b'=' (q.value ++ t)))

query_loop-text :
    (qs : List QueryInfo) (fuel : ℕ) (u : Url) (e : ErrorHandler)
    → IsQuery qs
    → length (query_text qs) ≤ fuel
    → query_loop fuel u e (query_text qs) ≡ (record u { query = u.query ++ qs }, e)
unfolding query_text
query_loop-text [] fuel u e h fits =
    query_loop_end fuel u e
    ∙ ap (λ (q : List QueryInfo). (record u { query = q }, e)) (sym (append-nil u.query))
query_loop-text (q ∷ []) zero u e h fits =
    absurd (omega (arith, length-append q.key (b'=' ∷ q.value)))
query_loop-text (q ∷ []) (suc fuel) u e ((hk, hv), h) fits =
    ap (λ (v : Bytes). query_loop (suc fuel) u e (q.key ++ (b'=' ∷ v))) (sym (append-nil q.value))
    ∙ query_loop_round fuel u e q [] hk hv (inl refl)
    ∙ query_loop_end fuel _ e
query_loop-text (q ∷ r ∷ qs) zero u e h fits =
    absurd (omega (arith, length-append q.key (b'=' ∷ (q.value ++ (b'&' ∷ query_text (r ∷ qs))))))
query_loop-text (q ∷ r ∷ qs) (suc fuel) u e ((hk, hv), h) fits =
    query_loop_round fuel u e q (b'&' ∷ query_text (r ∷ qs)) hk hv (inr refl)
    ∙ query_loop-text (r ∷ qs) fuel _ e h (
        omega (
          arith,
          length-append q.key (b'=' ∷ (q.value ++ (b'&' ∷ query_text (r ∷ qs)))),
          length-append q.value (b'&' ∷ query_text (r ∷ qs)),
        ))
    ∙ ap (λ (x : List QueryInfo). (record u { query = x }, e))
        (append_assoc u.query (q ∷ []) (r ∷ qs))

get_or-length : (xs : Bytes) → get_or xs (length xs) 0 ≡ 0
get_or-length [] = refl
get_or-length (x ∷ xs) = get_or-length xs

-- `set_query` adds the queries that a query text of at most 4096 bytes spells out, when no key or
-- value holds a delimiter that ends it, a `#` or a NUL, and raises no event.
pub set_query-text :
    (qs : List QueryInfo) (u : Url) (e : ErrorHandler)
    → IsQuery qs
    → length (query_text qs) ≤ max_size
    → set_query u e (some (query_text qs)) (length (query_text qs))
      ≡ (record u { query = u.query ++ qs }, e)
unfolding set_query
set_query-text qs u e h fits =
    let short : ltb max_size (length (query_text qs)) ≡ false = ground arith in
    rw
      (
        get_or-length (query_text qs),
        short,
        take_all (length (query_text qs)) (query_text qs) (omega arith),
      )
      (query_loop-text qs (length (query_text qs)) u e h (omega arith))

query_text_kept : (qs : List QueryInfo) → IsQuery qs → AllKept to_query_end (query_text qs)
unfolding query_text isspace
query_text_kept [] h = tt
query_text_kept (q ∷ []) ((hk, hv), h) =
    AllKept-append to_query_end q.key (b'=' ∷ q.value)
      (AllKept-mono key_byte to_query_end q.key (λ c k. ground arith) hk)
      (refl, AllKept-mono value_byte to_query_end q.value (λ c k. ground arith) hv)
query_text_kept (q ∷ r ∷ qs) ((hk, hv), h) =
    AllKept-append to_query_end q.key (b'=' ∷ (q.value ++ (b'&' ∷ query_text (r ∷ qs))))
      (AllKept-mono key_byte to_query_end q.key (λ c k. ground arith) hk)
      (
        refl,
        AllKept-append to_query_end q.value (b'&' ∷ query_text (r ∷ qs))
            (AllKept-mono value_byte to_query_end q.value (λ c k. ground arith) hv)
            (refl, query_text_kept (r ∷ qs) h),
      )

query_text-HasNoNul : (qs : List QueryInfo) → IsQuery qs → HasNoNul (query_text qs)
unfolding query_text
query_text-HasNoNul [] h = tt
query_text-HasNoNul (q ∷ []) ((hk, hv), h) =
    All-append (λ c. c ≢ 0) q.key (b'=' ∷ q.value) (key-HasNoNul q.key hk)
      (omega arith, value-HasNoNul q.value hv)
query_text-HasNoNul (q ∷ r ∷ qs) ((hk, hv), h) =
    All-append (λ c. c ≢ 0) q.key (b'=' ∷ (q.value ++ (b'&' ∷ query_text (r ∷ qs))))
      (key-HasNoNul q.key hk)
      (
        omega arith,
        All-append (λ c. c ≢ 0) q.value (b'&' ∷ query_text (r ∷ qs)) (value-HasNoNul q.value hv)
            (omega arith, query_text-HasNoNul (r ∷ qs) h),
      )

query_text_some : (q : QueryInfo) (qs : List QueryInfo) → 0 < length (query_text (q ∷ qs))
unfolding query_text
query_text_some q [] = omega (arith, length-append q.key (b'=' ∷ q.value))
query_text_some q (r ∷ qs) =
    omega (arith, length-append q.key (b'=' ∷ (q.value ++ (b'&' ∷ query_text (r ∷ qs)))))

pub query_text_le : (qs : List QueryInfo) → length (query_text qs) ≤ length (queries_text qs)
unfolding query_text
query_text_le [] = omega arith
query_text_le (q ∷ qs) = omega arith

pub query_piece :
    (u : Url) (e : ErrorHandler) (qs : List QueryInfo) (t : Bytes)
    → u.query ≡ []
    → IsQuery qs
    → length (query_text qs) ≤ max_size
    → Stops to_query_end t
    → (head_byte t == b'?') ≡ false
    → parse_query (record { url = u; error = e; rest = queries_text qs ++ t })
      ≡ next (record { url = record u { query = qs }; error = e; rest = t })
unfolding parse_query
query_piece u e [] t no_query h fits s other = rw other (
    ap (λ (q : List QueryInfo). next (record { url = record u { query = q }; error = e; rest = t }))
      no_query)
query_piece u e (q ∷ qs) t no_query h fits s other =
    let text = query_text (q ∷ qs) in
    rw
      (
        span_rest_of to_query_end text t (query_text_kept (q ∷ qs) h) s,
        span_taken_of to_query_end text t (query_text_kept (q ∷ qs) h) s,
        cstr-All text (query_text-HasNoNul (q ∷ qs) h),
        is_empty-append text t (query_text_some q qs),
        set_query-text (q ∷ qs) u e h fits,
      )
      (ap
        (λ (x : List QueryInfo).
          next (record { url = record u { query = x ++ (q ∷ qs) }; error = e; rest = t }))
        no_query)

-- ===== src/Url/RoundTrip/Pieces.antt =====
-- Each part of `InitFromBuf` on the text of its field, with any text `t` behind it.
use ip_utils.Base.{
  ℕ, ◌^◌, ◌<◌, ◌≡◌, refl, ap, inr, Bool, false, not, ◌&&◌, some, [], ◌∷◌, ◌++◌, append_assoc, arith,
  ltb, leb, ◌==◌, Bytes, codes, length, take_all, drop_all, cstr-All, ◌>>=◌, isspace, isdigit,
  head_byte, is_empty, span_rest, span_taken-All, Stops, AllKept, span_taken_of, span_rest_of,
  AllKept-mono, is_empty-false, is_empty-append, next, decimal, value-decimal, decimal-isdigit,
  decimal-ne-nil,
}
use ip_utils.ErrorHandler.{ErrorHandler}
use ip_utils.Url.{
  is_nasty, has_nasty, is_str_tainted, untaint, set_scheme, set_host, set_port, set_fragment,
  in_path, set_path_rest, set_path, Url,
}
use ip_utils.Url.Parse.{
  find_colon, not_colon, take_scheme, parse_scheme, in_host, parse_host, parse_port, to_path_end,
  parse_path, not_space, parse_fragment, skip_spaces,
}
use ip_utils.Url.RoundTrip.PrintText.{path_text, fragment_text, HasNoNul}

-- A byte that a field may hold: kept by the walk over the field, and neither white space nor
-- tainted nor NUL.
abbrev pub plain : (ℕ → Bool) → ℕ → Bool
plain keep c = keep c && not (isspace c) && not (is_nasty c) && not (c == 0)

pub plain-keep : (keep : ℕ → Bool) (xs : Bytes) → AllKept (plain keep) xs → AllKept keep xs
plain-keep keep xs = AllKept-mono (plain keep) keep xs (λ c h. ground arith)

pub plain-HasNoNul : (keep : ℕ → Bool) (xs : Bytes) → AllKept (plain keep) xs → HasNoNul xs
plain-HasNoNul keep [] h = tt
plain-HasNoNul keep (x ∷ xs) (hx, h) = (ground arith, plain-HasNoNul keep xs h)

plain_clean : (keep : ℕ → Bool) (xs : Bytes) → AllKept (plain keep) xs → has_nasty xs ≡ false
unfolding has_nasty
plain_clean keep [] h = refl
plain_clean keep (x ∷ xs) (hx, h) = ground (arith, plain_clean keep xs h)

untaint-plain : (keep : ℕ → Bool) (xs : Bytes) → AllKept (plain keep) xs → untaint xs ≡ xs
unfolding is_str_tainted
untaint-plain keep xs h = rw (cstr-All xs (plain-HasNoNul keep xs h), plain_clean keep xs h)

find_colon_scheme :
    (xs t : Bytes) → AllKept (plain not_colon) xs → find_colon (xs ++ (b':' ∷ t)) ≡ some (b':' ∷ t)
unfolding find_colon
find_colon_scheme [] t h = refl
find_colon_scheme (x ∷ xs) t (hx, h) = ground (arith, find_colon_scheme xs t h)

skip_spaces-plain :
    (u : Url) (e : ErrorHandler) (xs t : Bytes)
    → is_empty xs ≡ false
    → AllKept (plain not_colon) xs
    → skip_spaces (record { url = u; error = e; rest = xs ++ t })
      ≡ next (record { url = u; error = e; rest = xs ++ t })
unfolding span_rest
skip_spaces-plain u e [] t some_there h = cc
skip_spaces-plain u e (x ∷ xs) t some_there (hx, h) = ground arith

-- `set_path` stores a plain path whole, and sees neither a query nor a fragment behind it.
set_path-plain :
    (u : Url) (e : ErrorHandler) (xs : Bytes)
    → 0 < length xs
    → AllKept (plain to_path_end) xs
    → set_path u e (some xs) (length xs) ≡ (record u { path = xs }, e)
unfolding set_path set_path_rest is_str_tainted
set_path-plain u e xs some_there h =
    let kept : AllKept in_path xs =
      AllKept-mono (plain to_path_end) in_path xs (λ c k. ground arith) h in
    let positive : leb (length xs) 0 ≡ false = ground arith in
    rw (
      take_all (length xs) xs (omega arith),
      span_taken-All in_path xs kept,
      drop_all xs,
      positive,
      cstr-All xs (plain-HasNoNul to_path_end xs h),
      plain_clean to_path_end xs h,
    )

module _ (u : Url) (e : ErrorHandler) where
  pub scheme_piece :
      (xs t behind : Bytes)
      → AllKept (plain not_colon) xs
      → is_empty xs ≡ false
      → is_empty t ≡ false
      → (skip_spaces (record { url = u; error = e; rest = xs ++ (codes "://" ++ t) })
          >>= parse_scheme behind)
        ≡ next (record { url = record u { scheme = xs }; error = e; rest = t })
  unfolding parse_scheme take_scheme set_scheme
  scheme_piece xs t behind h some_there more =
      rw
        (
          skip_spaces-plain u e xs (codes "://" ++ t) some_there h,
          append_assoc xs (codes "://" ++ t) behind,
          find_colon_scheme xs ((b'/' ∷ b'/' ∷ t) ++ behind) h,
          span_rest_of not_colon xs (codes "://" ++ t) (plain-keep not_colon xs h) (inr refl),
          span_taken_of not_colon xs (codes "://" ++ t) (plain-keep not_colon xs h) (inr refl),
          untaint-plain not_colon xs h,
        )
        (rw (
          let big : ltb (length (codes "://" ++ t)) 4 ≡ false =
            ground (arith, is_empty-false t more) in
          big))

  pub host_piece :
      (xs t : Bytes)
      → AllKept (plain in_host) xs
      → Stops in_host t
      → parse_host (record { url = u; error = e; rest = xs ++ t })
        ≡ next (record { url = record u { host = xs }; error = e; rest = t })
  unfolding parse_host set_host
  host_piece xs t h s = rw (
    span_rest_of in_host xs t (plain-keep in_host xs h) s,
    span_taken_of in_host xs t (plain-keep in_host xs h) s,
    untaint-plain in_host xs h,
  )

  pub port_piece :
      (p default_port : ℕ) (t : Bytes)
      → p < 2 ^ 16
      → Stops isdigit t
      → parse_port default_port (record { url = u; error = e; rest = b':' ∷ (decimal p ++ t) })
        ≡ next (record { url = record u { port = p }; error = e; rest = t })
  unfolding parse_port set_port
  port_piece p default_port t small s =
      rw
        (
          span_rest_of isdigit (decimal p) t (decimal-isdigit p) s,
          span_taken_of isdigit (decimal p) t (decimal-isdigit p) s,
          value-decimal p (omega arith),
        )
        (rw (is_empty-append (decimal p) t (decimal-ne-nil p)) (
          ap (λ (k : ℕ). next (record { url = record u { port = k }; error = e; rest = t }))
            (omega arith)))

  pub path_piece :
      (xs t : Bytes)
      → u.path ≡ []
      → AllKept (plain to_path_end) xs
      → Stops to_path_end t
      → (head_byte t == b'/') ≡ false
      → parse_path (record { url = u; error = e; rest = path_text xs ++ t })
        ≡ next (record { url = record u { path = xs }; error = e; rest = t })
  unfolding parse_path
  path_piece [] t no_path h s other = rw other (
      ap (λ (p : Bytes). next (record { url = record u { path = p }; error = e; rest = t }))
        no_path)
  path_piece (x ∷ xs) t no_path h s other =
      rw
        (
          span_rest_of to_path_end (x ∷ xs) t (plain-keep to_path_end (x ∷ xs) h) s,
          span_taken_of to_path_end (x ∷ xs) t (plain-keep to_path_end (x ∷ xs) h) s,
          cstr-All (x ∷ xs) (plain-HasNoNul to_path_end (x ∷ xs) h),
        )
        (rw (set_path-plain u e (x ∷ xs) (omega arith) h))

  pub fragment_piece :
      (xs t : Bytes)
      → u.fragment ≡ []
      → AllKept (plain not_space) xs
      → Stops not_space t
      → (head_byte t == b'#') ≡ false
      → parse_fragment (record { url = u; error = e; rest = fragment_text xs ++ t })
        ≡ next (record { url = record u { fragment = xs }; error = e; rest = t })
  unfolding parse_fragment set_fragment
  fragment_piece [] t no_fragment h s other = rw other (
      ap (λ (p : Bytes). next (record { url = record u { fragment = p }; error = e; rest = t }))
        no_fragment)
  fragment_piece (x ∷ xs) t no_fragment h s other = rw (
    span_rest_of not_space (x ∷ xs) t (plain-keep not_space (x ∷ xs) h) s,
    span_taken_of not_space (x ∷ xs) t (plain-keep not_space (x ∷ xs) h) s,
    untaint-plain not_space (x ∷ xs) h,
  )

-- ===== src/File/Paths.antt =====
-- `InitFromBuf` splits a path that `path` puts together again.
use ip_utils.Base.{
  ℕ, ◌<◌, ◌≡◌, refl, sym, ap, ◌≢◌, inl, inr, false, Option, none, some, [], ◌∷◌, ◌++◌, arith, ◌==◌,
  Bool-cases, Bytes, length, All, take_all, cstr-All,
}
use ip_utils.File.{File}
use ip_utils.File.Names.{
  slash, ends_in_slash, drop_slash, join_dir, split_last, named, means_stdin, init_from_buf,
  max_path, path,
}
use mathlib.Core.Path.{subst}
use ip_utils.ErrorHandler.{ErrorHandler}

drop_slash-kept : (xs : Bytes) → ends_in_slash xs ≡ false → drop_slash xs ≡ xs
unfolding drop_slash ends_in_slash
drop_slash-kept [] h = refl
drop_slash-kept (c ∷ []) h = rw h refl
drop_slash-kept (c ∷ d ∷ cs) h = ap (◌∷◌ c) (drop_slash-kept (d ∷ cs) h)

-- The two parts of a split make up the whole.
abbrev Joins : Bytes → Option (Bytes × Bytes) → Type 0
Joins xs none = Unit
Joins xs (some (dir, name)) = dir ++ name ≡ xs

join_dir-Joins :
    (c : ℕ) (cs : Bytes) (r : Option (Bytes × Bytes))
    → Joins cs r
    → Joins (c ∷ cs) (join_dir c cs r)
join_dir-Joins c cs none h = elim (Bool-cases (c == slash)) [
  | inl at_slash ↦ rw at_slash refl
  | inr before ↦ rw before tt
]
join_dir-Joins c cs (some (dir, name)) h = ap (◌∷◌ c) h

split_last-Joins : (xs : Bytes) → Joins xs (split_last xs)
unfolding split_last
split_last-Joins [] = tt
split_last-Joins (c ∷ cs) = join_dir-Joins c cs (split_last cs) (split_last-Joins cs)

HasNoNul-left : (xs ys : Bytes) → All (λ c. c ≢ 0) (xs ++ ys) → All (λ c. c ≢ 0) xs
HasNoNul-left [] ys h = tt
HasNoNul-left (x ∷ xs) ys (hx, h) = (hx, HasNoNul-left xs ys h)

HasNoNul-right : (xs ys : Bytes) → All (λ c. c ≢ 0) (xs ++ ys) → All (λ c. c ≢ 0) ys
HasNoNul-right [] ys h = h
HasNoNul-right (x ∷ xs) ys (hx, h) = HasNoNul-right xs ys h

path-named :
    (f : File) (xs : Bytes) (r : Option (Bytes × Bytes))
    → All (λ c. c ≢ 0) xs
    → length xs < max_path
    → Joins xs r
    → path (named f xs [] r) none ≡ xs
unfolding path
path-named f xs none no_nul fits h = rw (cstr-All xs no_nul) (take_all 4095 xs (omega arith))
path-named f xs (some (dir, name)) no_nul fits h =
    let whole : All (λ c. c ≢ 0) (dir ++ name) = subst (All (λ c. c ≢ 0)) (sym h) no_nul in
    rw
      (
        cstr-All dir (HasNoNul-left dir name whole),
        cstr-All name (HasNoNul-right dir name whole),
        h,
      )
      (take_all 4095 xs (omega arith))

-- A path with no NUL, shorter than 4096 bytes, that does not end in a slash and does not begin
-- with "-" or, in any case of its letters, with "stdin", is split by `InitFromBuf` into a directory
-- and a name that `path` joins to the same path again, with no event and the length of the path as
-- the count returned.
pub init_from_buf-path :
    (f : File) (e : ErrorHandler) (text : Bytes)
    → All (λ c. c ≢ 0) text
    → length text < max_path
    → ends_in_slash text ≡ false
    → means_stdin text ≡ false
    → let r = init_from_buf f e (some text) in
      (path r.0 none ≡ text) × (r.1 ≡ e) × (r.2 ≡ length text)
unfolding init_from_buf
init_from_buf-path f e text no_nul fits no_slash no_stdin =
    rw (cstr-All text no_nul, no_stdin, drop_slash-kept text no_slash)
      (path-named f text (split_last text) no_nul fits (split_last-Joins text), refl, refl)

-- ===== src/File/Copies/Short.antt =====
-- File.cc, Copy: what a short write does.
use ip_utils.Base.{ℕ, zero, suc, ◌≡◌, refl, Option, none, some, ◌∷◌, Bytes}
use ip_utils.ErrorHandler.{ErrorHandler}
use ip_utils.File.Copies.{write_chunk, Disk}

module _ {K : Type 0} (os : Disk K)
    (one : (k : K) (to : Option ℕ) (x : ℕ) (xs : Bytes) → (os.write k to (x ∷ xs)).1 ≡ some 1) where
  one_more :
      (fuel : ℕ) (k : K) (e : ErrorHandler) (to : Option ℕ) (x y : ℕ) (xs : Bytes)
      → write_chunk os fuel k e to (x ∷ y ∷ xs) 1 ≡ none
  unfolding write_chunk
  one_more zero k e to x y xs = refl
  one_more (suc fuel) k e to x y xs =
      simp (write_chunk, one k to y xs) (one_more fuel (os.write k to (y ∷ xs)).0 e to x y xs)

  -- On a file that takes one byte at a time, the loop of `Copy` that writes a chunk of two bytes or
  -- more never ends: it counts the place of the next byte from the last write alone, and writes the
  -- second byte again and again.
  pub write_chunk_endless :
      (fuel : ℕ) (k : K) (e : ErrorHandler) (to : Option ℕ) (x y : ℕ) (xs : Bytes)
      → write_chunk os fuel k e to (x ∷ y ∷ xs) 0 ≡ none
  unfolding write_chunk
  write_chunk_endless zero k e to x y xs = refl
  write_chunk_endless (suc fuel) k e to x y xs =
      simp (write_chunk, one k to x (y ∷ xs))
        (one_more fuel (os.write k to (x ∷ y ∷ xs)).0 e to x y xs)

-- ===== src/File/Copies/Whole.antt =====
-- File.cc, Copy: the new file gets what was left to read of the old one.
use ip_utils.Base.{
  ℕ, zero, suc, ◌<◌, ◌≡◌, refl, sym, ap, ◌∙◌, false, Option, some, [], ◌∷◌, ◌++◌, append_assoc,
  append-nil, arith, ◌==◌, Bytes, length, length-append, drop,
}
use ip_utils.ErrorHandler.{ErrorHandler}
use ip_utils.File.Copies.{chunk_size, Disk, Ran, write_chunk, copy_loop}

-- A read gives the front of what is left of a file, and nothing only at its end; a write takes all
-- that it is offered, behind what the file has. The two files are not the same.
pub record IsWhole {K : Type 0} (os : Disk K) : Type 0 where
  pub pending : K → ℕ → Bytes
  pub out : K → Option ℕ → Bytes
  pub reads :
      (k : K) (from n : ℕ)
      → (bs : Bytes) × ((os.read k from n).1 ≡ some bs)
        × (bs ++ pending (os.read k from n).0 from ≡ pending k from)
        × (0 < n → bs ≡ [] → pending k from ≡ [])
        × ((to : Option ℕ) → out (os.read k from n).0 to ≡ out k to)
  pub writes :
      (k : K) (to : Option ℕ) (bs : Bytes)
      → ((os.write k to bs).1 ≡ some (length bs))
        × (out (os.write k to bs).0 to ≡ out k to ++ bs)
        × ((from : ℕ) → pending (os.write k to bs).0 from ≡ pending k from)

module _ {K : Type 0} (os : Disk K) (whole : IsWhole os) where
  -- A loop that has gone through, with `bs` behind what the new file had.
  pub record Wrote (k : K) (e : ErrorHandler) (to : Option ℕ) (bs : Bytes) (r : Ran K)
      : Type 0 where
    pub quiet : r.error ≡ e
    pub through : r.returned ≡ false
    pub wrote : whole.out r.kernel to ≡ whole.out k to ++ bs

  drop-length : (bs : Bytes) → drop (length bs) bs ≡ []
  drop-length [] = refl
  drop-length (x ∷ bs) = drop-length bs

  last_write :
      (rounds : ℕ) (k : K) (e : ErrorHandler) (to : Option ℕ) (chunk : Bytes)
      → write_chunk os (suc rounds) k e to chunk (length chunk)
        ≡ some (record { kernel = (os.write k to []).0; error = e; returned = false })
  unfolding write_chunk
  last_write rounds k e to chunk =
      let (took, put, left) = whole.writes k to [] in
      simp (write_chunk, drop-length chunk, took) refl

  first_write :
      (fuel : ℕ) (k : K) (e : ErrorHandler) (to : Option ℕ) (chunk : Bytes)
      → (length chunk == 0) ≡ false
      → write_chunk os (suc fuel) k e to chunk 0
        ≡ write_chunk os fuel (os.write k to chunk).0 e to chunk (length chunk)
  unfolding write_chunk
  first_write fuel k e to chunk some_left =
      let (took, put, left) = whole.writes k to chunk in simp (write_chunk, took, some_left) refl

  write_chunk-Wrote :
      (rounds : ℕ) (k : K) (e : ErrorHandler) (to : Option ℕ) (x : ℕ) (xs : Bytes)
      → (r : Ran K) × (write_chunk os (suc (suc rounds)) k e to (x ∷ xs) 0 ≡ some r)
        × Wrote k e to (x ∷ xs) r
        × ((from : ℕ) → whole.pending r.kernel from ≡ whole.pending k from)
  write_chunk-Wrote rounds k e to x xs =
      let chunk = x ∷ xs in
      let (took, put, left) = whole.writes k to chunk in
      let k' = (os.write k to chunk).0 in
      let (took', put', left') = whole.writes k' to [] in
      (
        record { kernel = (os.write k' to []).0; error = e; returned = false },
        first_write (suc rounds) k e to chunk (ground arith) ∙ last_write rounds k' e to chunk,
        record { quiet = refl; through = refl; wrote = put' ∙ append-nil _ ∙ put },
        λ from. left' from ∙ left from,
      )

  abbrev Copies : K → ErrorHandler → ℕ → Option ℕ → Option (Ran K) → Type 0
  Copies k e from to result =
      (r : Ran K) × (result ≡ some r) × Wrote k e to (whole.pending k from) r

  -- A round that reads nothing.
  last_read :
      (fuel rounds : ℕ) (k : K) (e : ErrorHandler) (from : ℕ) (to : Option ℕ)
      → (os.read k from chunk_size).1 ≡ some []
      → copy_loop os (suc fuel) rounds k e from to
        ≡ some (record { kernel = (os.read k from chunk_size).0; error = e; returned = false })
  unfolding copy_loop
  last_read fuel rounds k e from to answer = simp (copy_loop, answer) refl

  -- A round that copies a chunk.
  next_read :
      (fuel rounds : ℕ) (k : K) (e : ErrorHandler) (from : ℕ) (to : Option ℕ) (x : ℕ) (xs : Bytes)
      (r : Ran K)
      → (os.read k from chunk_size).1 ≡ some (x ∷ xs)
      → write_chunk os rounds (os.read k from chunk_size).0 e to (x ∷ xs) 0 ≡ some r
      → r.returned ≡ false
      → r.error ≡ e
      → copy_loop os (suc fuel) rounds k e from to ≡ copy_loop os fuel rounds r.kernel e from to
  unfolding copy_loop
  next_read fuel rounds k e from to x xs r answer written through quiet =
      simp (copy_loop, answer, written, through, quiet) refl

  -- What a read of a chunk says.
  abbrev Answers : K → ℕ → Bytes → Type 0
  Answers k from bs =
      ((os.read k from chunk_size).1 ≡ some bs)
      × (bs ++ whole.pending (os.read k from chunk_size).0 from ≡ whole.pending k from)
      × (0 < chunk_size → bs ≡ [] → whole.pending k from ≡ [])
      × ((to : Option ℕ) → whole.out (os.read k from chunk_size).0 to ≡ whole.out k to)

  round-Copies :
      (fuel rounds : ℕ) (k : K) (e : ErrorHandler) (from : ℕ) (to : Option ℕ) (bs : Bytes)
      → Answers k from bs
      → ((k' : K)
          → length (whole.pending k' from) < length (whole.pending k from)
          → Copies k' e from to (copy_loop os fuel (suc (suc rounds)) k' e from to))
      → Copies k e from to (copy_loop os (suc fuel) (suc (suc rounds)) k e from to)
  round-Copies fuel rounds k e from to [] (answer, front, ends, same) more = (
    record { kernel = (os.read k from chunk_size).0; error = e; returned = false },
    last_read fuel (suc (suc rounds)) k e from to answer,
    record {
      quiet = refl;
      through = refl;
      wrote =
          same to
          ∙ sym (append-nil (whole.out k to))
          ∙ ap (λ (xs : Bytes). whole.out k to ++ xs) (sym (ends (omega arith) refl));
    },
  )
  round-Copies fuel rounds k e from to (x ∷ xs) (answer, front, ends, same) more =
      let k' = (os.read k from chunk_size).0 in
      let (r, written, w, left) = write_chunk-Wrote rounds k' e to x xs in
      let size = ap length front in
      let fewer = ap length (left from) in
      let split = length-append (x ∷ xs) (whole.pending k' from) in
      let (s, run, v) = more r.kernel (omega (arith, size, fewer, split)) in
      (
        s,
        next_read fuel (suc (suc rounds)) k e from to x xs r answer written w.through w.quiet ∙ run,
        record {
          quiet = v.quiet;
          through = v.through;
          wrote =
              v.wrote
              ∙ ap (λ (bs : Bytes). whole.out r.kernel to ++ bs) (left from)
              ∙ ap (λ (bs : Bytes). bs ++ whole.pending k' from)
                  (w.wrote ∙ ap (λ (bs : Bytes). bs ++ (x ∷ xs)) (same to))
              ∙ append_assoc (whole.out k to) (x ∷ xs) (whole.pending k' from)
              ∙ ap (λ (bs : Bytes). whole.out k to ++ bs) front;
        },
      )

  -- Where reads give what is left of a file in order and writes take all that they are offered,
  -- the loops of `Copy` end, given as many rounds as there are bytes left and one more and two
  -- rounds for each chunk. No event is raised, Copy goes on to close the copy, and the copy has got
  -- what was left to read of the original.
  pub copy_loop-Copies :
      (fuel rounds : ℕ) (k : K) (e : ErrorHandler) (from : ℕ) (to : Option ℕ)
      → length (whole.pending k from) < fuel
      → (r : Ran K) × (copy_loop os fuel (suc (suc rounds)) k e from to ≡ some r)
        × Wrote k e to (whole.pending k from) r
  copy_loop-Copies zero rounds k e from to enough = absurd (omega (arith, enough))
  copy_loop-Copies (suc fuel) rounds k e from to enough =
      let (bs, answer, front, ends, same) = whole.reads k from chunk_size in
      round-Copies fuel rounds k e from to bs (answer, front, ends, same)
        (λ k' fewer. copy_loop-Copies fuel rounds k' e from to (omega (arith, enough, fewer)))

-- ===== src/Session/Queue/Buffer.antt =====
-- The bytes in use of a buffer that is copied into, and the messages in two parts of it.
use native.Mathlib.Nat.{zero-add, suc-add}
use ip_utils.Base.{
  ℕ, zero, suc, ◌+◌, ◌-◌, ◌≤◌, ◌≡◌, refl, sym, ap, List, [], ◌∷◌, ◌++◌, append_assoc, append-nil,
  arith, Bytes, length, take, drop, length-append, length-take, length-drop, take_all, take-append,
  take_append,
}
use ip_utils.Session.{copy_in, Storage, use_mem, use_disc, MsgInfo}
use ip_utils.Session.Queue.{
  extent, footprint, total, file_use, file_count, files, message_of, first_message, messages,
}

module _ {ℓ} {A : Type ℓ} where
  pub take_short : (n : ℕ) (xs ys : List A) → n ≤ length xs → take n (xs ++ ys) ≡ take n xs
  take_short zero xs ys h = refl
  take_short (suc n) [] ys h = absurd (omega arith)
  take_short (suc n) (x ∷ xs) ys h = ap (◌∷◌ x) (take_short n xs ys (omega arith))

  pub drop_short : (n : ℕ) (xs ys : List A) → n ≤ length xs → drop n (xs ++ ys) ≡ drop n xs ++ ys
  drop_short zero xs ys h = refl
  drop_short (suc n) [] ys h = absurd (omega arith)
  drop_short (suc n) (x ∷ xs) ys h = drop_short n xs ys (omega arith)

  pub drop-take : (n k : ℕ) (xs : List A) → drop n (take (n + k) xs) ≡ take k (drop n xs)
  drop-take zero k xs = rw zero-add
  drop-take (suc n) zero [] = rw suc-add
  drop-take (suc n) (suc k) [] = rw suc-add
  drop-take (suc n) k (x ∷ xs) = rw suc-add (drop-take n k xs)

  pub drop-drop : (m n : ℕ) (xs : List A) → drop (m + n) xs ≡ drop n (drop m xs)
  drop-drop zero n xs = rw zero-add
  drop-drop (suc m) zero [] = rw suc-add
  drop-drop (suc m) (suc n) [] = rw suc-add
  drop-drop (suc m) n (x ∷ xs) = rw suc-add (drop-drop m n xs)

  pub take_two : (m n : ℕ) (xs : List A) → take m xs ++ take n (drop m xs) ≡ take (m + n) xs
  take_two zero n xs = rw zero-add
  take_two (suc m) zero [] = rw suc-add
  take_two (suc m) (suc n) [] = rw suc-add
  take_two (suc m) n (x ∷ xs) = rw suc-add (ap (◌∷◌ x) (take_two m n xs))

-- Bytes copied in behind the ones in use join them.
pub copy_in_used :
    (block xs : Bytes) (n : ℕ)
    → n + length xs ≤ length block
    → take (n + length xs) (copy_in block n xs) ≡ take n block ++ xs
copy_in_used block xs n h =
    let len : length (take n block) ≡ n = omega (arith, length-take n block) in
    let part : n + length xs - n ≡ length xs = omega arith in
    rw
      (
        take-append (n + length xs) (take n block) (xs ++ drop (n + length xs) block),
        take_all (n + length xs) (take n block) (omega arith),
        len,
        part,
        take_append xs (drop (n + length xs) block),
      )
      refl

pub copy_in_to :
    (block xs : Bytes) (n end : ℕ)
    → end ≡ n + length xs
    → end ≤ length block
    → take end (copy_in block n xs) ≡ take n block ++ xs
copy_in_to block xs n end e h = rw e (copy_in_used block xs n (omega arith))

pub length-copy_in :
    (block xs : Bytes) (n : ℕ)
    → n + length xs ≤ length block
    → length (copy_in block n xs) ≡ length block
length-copy_in block xs n h = omega (
  arith,
  length-append (take n block) (xs ++ drop (n + length xs) block),
  length-append xs (drop (n + length xs) block),
  length-take n block,
  length-drop (n + length xs) block,
)

pub total-concat :
    (ms : List MsgInfo) (m : MsgInfo) → total (ms ++ (m ∷ [])) ≡ total ms + footprint m
unfolding total
total-concat [] m = omega arith
total-concat (x ∷ ms) m = omega (arith, total-concat ms m)

pub files-concat :
    (ms : List MsgInfo) (m : MsgInfo) → files (ms ++ (m ∷ [])) ≡ files ms + file_count m
unfolding files
files-concat [] m = omega arith
files-concat (x ∷ ms) m = omega (arith, files-concat ms m)

module _ {File : Type 0} where
  -- A message is read from its own bytes and its own file.
  message_of-append :
      (storage : Storage) (h b : ℕ) (buf more : Bytes) (fs gs : List File)
      → extent storage h b ≤ length buf
      → file_use storage ≤ length fs
      → message_of storage h b (buf ++ more) (fs ++ gs) ≡ message_of storage h b buf fs
  message_of-append use_mem h b buf more fs gs hb hf =
      rw
        (
          take_short h buf more (omega arith),
          drop_short h buf more (omega arith),
          take_short b (drop h buf) more (omega (arith, length-drop h buf)),
        )
        refl
  message_of-append use_disc h b buf more [] gs hb hf = absurd (omega arith)
  message_of-append use_disc h b buf more (f ∷ fs) gs hb hf = rw (take_short h buf more hb) refl

  -- A message behind the others is read from the bytes and the files behind theirs.
  pub messages-concat :
      (ms : List MsgInfo) (m : MsgInfo) (buf more : Bytes) (fs gs : List File)
      → total ms ≡ length buf
      → files ms ≡ length fs
      → messages (ms ++ (m ∷ [])) (buf ++ more) (fs ++ gs)
        ≡ messages ms buf fs ++ first_message m more gs
  unfolding messages total files
  messages-concat [] m [] more [] gs ht hf = append-nil _
  messages-concat [] m (b ∷ buf) more fs gs ht hf = absurd (omega arith)
  messages-concat [] m [] more (f ∷ fs) gs ht hf = absurd (omega arith)
  messages-concat (x ∷ ms) m buf more fs gs ht hf =
      let hb : footprint x ≤ length buf = omega arith in
      let hc : file_count x ≤ length fs = omega arith in
      rw
        (
          message_of-append x.storage x.hdr_len x.body_len buf more fs gs hb hc,
          drop_short (footprint x) buf more hb,
          drop_short (file_count x) fs gs hc,
          messages-concat ms m (drop (footprint x) buf) more (drop (file_count x) fs) gs
              (omega (arith, length-drop (footprint x) buf))
              (omega (arith, length-drop (file_count x) fs)),
        )
        (sym (append_assoc (first_message x buf fs) _ _))

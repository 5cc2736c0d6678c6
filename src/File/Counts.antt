-- ===== src/File/Counts.antt =====
-- The reference counts of the descriptors agree with the files that hold them.
use ip_utils.Base.{
  ℕ, suc, ◌+◌, ◌-◌, ◌%◌, ◌^◌, ◌≤◌, ◌<◌, ◌≡◌, refl, sym, ap, ◌∙◌, inl, inr, true, false, Option,
  none, some, List, [], ◌∷◌, arith, ltb, ◌==◌, if◌then◌else◌, Bool-cases, Option-cases, some-none,
  length, is_empty,
}
use ip_utils.File.{
  put, allocate, new_file, is_stdin_name, closing_fd, closing_fp, closing, close, fclosing_fp,
  fclosing_fd, fclosing, fclose, close_either, releasing, release, sharing, share, Descriptor, File,
  Heap,
}
use mathlib.Core.Path.{subst}

-- How many of the files hold the descriptor at an address.
unfoldable pub holders : ℕ → List File → ℕ
holders a [] = 0
holders a (f ∷ fs) = if f.descriptor == a then suc (holders a fs) else holders a fs

-- A cell that `n` files hold.
abbrev pub HeldBy : ℕ → Option Descriptor → Type 0
HeldBy n none = n ≡ 0
HeldBy n (some d) = (d.cnt ≡ n) × (0 < n)

-- Each descriptor's count is the number of files that hold it, no file holds a deleted one, and
-- addresses that are not allocated yet hold nothing.
pub record IsCounted (w : Heap) (fs : List File) : Type 0 where
  pub held : (a : ℕ) → HeldBy (holders a fs) (w.cells a)
  pub unused : (a : ℕ) → w.fresh ≤ a → w.cells a ≡ none

pub holders_le : (a : ℕ) (fs : List File) → holders a fs ≤ length fs
unfolding holders
holders_le a [] = omega arith
holders_le a (f ∷ fs) = ground (arith, holders_le a fs)

-- What an operation on the descriptor at `a` may do to the others: nothing.
abbrev pub OnlyAt : ℕ → Heap → Heap → Type 0
OnlyAt a w v = ((b : ℕ) → (b == a) ≡ false → v.cells b ≡ w.cells b) × (v.fresh ≡ w.fresh)

abbrev Closes : ℕ → Heap → Option Heap → Type 0
Closes a w r = (v : Heap) × (r ≡ some v) × OnlyAt a w v

pub same_address : (a : ℕ) → (a == a) ≡ true
same_address a = ground arith

closing_fd-Closes :
    (f : File) (w : Heap) (d : Descriptor) (fd : Option ℕ)
    → Closes f.descriptor w (closing_fd f w d fd)
closing_fd-Closes f w d none = (w, refl, (λ b other. refl, refl))
closing_fd-Closes f w d (some fd) = elim (Bool-cases (is_stdin_name f.name)) [
  | inl stdin ↦ rw stdin (w, refl, (λ b other. refl, refl))
  | inr other_name ↦ rw other_name (_, refl, (λ b other. rw other refl, refl))
]

closing_fp-Closes :
    (f : File) (w : Heap) (d : Descriptor) (fp : Option ℕ)
    → Closes f.descriptor w (closing_fp f w d fp)
closing_fp-Closes f w d none = closing_fd-Closes f w d d.fd
closing_fp-Closes f w d (some fp) = (_, refl, (λ b other. refl, refl))

closing-Closes :
    (f : File) (w : Heap) (d : Descriptor) → Closes f.descriptor w (closing f w (some d))
closing-Closes f w d = elim (Bool-cases (is_empty f.name)) [
  | inl empty ↦ rw empty (_, refl, (λ b other. refl, refl))
  | inr named ↦ rw named (closing_fp-Closes f w d d.fp)
]

fclosing_fp-Closes :
    (f : File) (w : Heap) (d : Descriptor) (fp : Option ℕ)
    → Closes f.descriptor w (fclosing_fp f w d fp)
fclosing_fp-Closes f w d none = (w, refl, (λ b other. refl, refl))
fclosing_fp-Closes f w d (some fp) = elim (Bool-cases (is_stdin_name f.name)) [
  | inl stdin ↦ rw stdin (w, refl, (λ b other. refl, refl))
  | inr other_name ↦ rw other_name (_, refl, (λ b other. rw other refl, refl))
]

fclosing_fd-Closes :
    (f : File) (w : Heap) (d : Descriptor) (fd : Option ℕ)
    → Closes f.descriptor w (fclosing_fd f w d fd)
fclosing_fd-Closes f w d none = fclosing_fp-Closes f w d d.fp
fclosing_fd-Closes f w d (some fd) = (_, refl, (λ b other. refl, refl))

fclosing-Closes :
    (f : File) (w : Heap) (d : Descriptor) → Closes f.descriptor w (fclosing f w (some d))
fclosing-Closes f w d = elim (Bool-cases (is_empty f.name)) [
  | inl empty ↦ rw empty (_, refl, (λ b other. refl, refl))
  | inr named ↦ rw named (fclosing_fd-Closes f w d d.fd)
]

close_either-Closes :
    (f : File) (w : Heap) (d : Descriptor) (fd fp : Option ℕ)
    → w.cells f.descriptor ≡ some d
    → Closes f.descriptor w (close_either f w fd fp)
unfolding close fclose
close_either-Closes f w d (some fd) fp e =
    subst (λ (cell : Option Descriptor). Closes f.descriptor w (closing f w cell)) (sym e)
      (closing-Closes f w d)
close_either-Closes f w d none (some fp) e =
    subst (λ (cell : Option Descriptor). Closes f.descriptor w (fclosing f w cell)) (sym e)
      (fclosing-Closes f w d)
close_either-Closes f w d none none e = (w, refl, (λ b other. refl, refl))

-- A cell that is in use was allocated.
pub used_below :
    (w : Heap) (fs : List File) (a : ℕ) (d : Descriptor)
    → IsCounted w fs
    → w.cells a ≡ some d
    → a < w.fresh
used_below w fs a d c e = elim (Bool-cases (ltb a w.fresh)) [
  | inl below ↦ ground arith
  | inr above ↦ absurd (some-none (sym e ∙ c.unused a (ground arith)))
]

-- A write of one cell, where the files that hold any other are the same.
pub put-IsCounted :
    (w u : Heap) (fs gs : List File) (a : ℕ) (cell : Option Descriptor)
    → IsCounted w fs
    → OnlyAt a w u
    → a < w.fresh
    → HeldBy (holders a gs) cell
    → ((b : ℕ) → (b == a) ≡ false → holders b gs ≡ holders b fs)
    → IsCounted (put u a cell) gs
put-IsCounted w u fs gs a cell c (others, fresh) below held same = record {
  held = λ b. elim (Bool-cases (b == a)) [
    | inl here ↦
        let at : b ≡ a = ground arith in
        rw here (subst (λ (x : ℕ). HeldBy (holders x gs) cell) (sym at) held)
    | inr there ↦ rw (there, others b there, same b there) (c.held b)
  ];
  unused = λ b beyond.
      let there : (b == a) ≡ false = ground (arith, fresh) in
      rw there (others b there ∙ c.unused b (omega (arith, fresh)));
}

pub holders_other :
    (f : File) (fs : List File) (b : ℕ)
    → (b == f.descriptor) ≡ false
    → holders b (f ∷ fs) ≡ holders b fs
unfolding holders
holders_other f fs b other = ground arith

pub holders_here :
    (f : File) (fs : List File) → holders f.descriptor (f ∷ fs) ≡ suc (holders f.descriptor fs)
unfolding holders
holders_here f fs = ground arith

-- One holder goes.
releasing-IsCounted :
    (f : File) (fs : List File) (w : Heap) (d : Descriptor)
    → length fs < 2 ^ 32 - 1
    → IsCounted w (f ∷ fs)
    → w.cells f.descriptor ≡ some d
    → d.cnt ≡ suc (holders f.descriptor fs)
    → (v : Heap) × (releasing f w (some d) ≡ some v) × IsCounted v fs
releasing-IsCounted f fs w d small c e count =
    let a = f.descriptor in
    let n = (d.cnt + (2 ^ 32 - 1)) % 2 ^ 32 in
    let less : n ≡ holders a fs = omega (arith, holders_le a fs) in
    let below : a < w.fresh = used_below w (f ∷ fs) a d c e in
    let same : (b : ℕ) → (b == a) ≡ false → holders b fs ≡ holders b (f ∷ fs) =
      λ b other. sym (holders_other f fs b other) in
    elim (Bool-cases (n == 0)) [
      | inl last ↦
          let w' = put w a (some (record d { cnt = n })) in
          let here : w'.cells a ≡ some (record d { cnt = n }) = rw (same_address a) refl in
          let (v, res, (others, fresh)) =
            close_either-Closes f w' (record d { cnt = n }) d.fd d.fp here in
          let gone : holders a fs ≡ 0 = ground (arith, less) in
          rw (last, res)
            (
              _,
              refl,
              put-IsCounted w v (f ∷ fs) fs a none c
                  (λ b other. others b other ∙ rw other refl, fresh) below gone same,
            )
      | inr shared ↦ rw shared (
        _,
        refl,
        put-IsCounted w w (f ∷ fs) fs a (some (record d { cnt = n })) c (λ b other. refl, refl)
            below (less, ground arith) same,
      )
    ]

-- The destructor.
pub release-IsCounted :
    (f : File) (fs : List File) (w : Heap)
    → length fs < 2 ^ 32 - 1
    → IsCounted w (f ∷ fs)
    → (v : Heap) × (release f w ≡ some v) × IsCounted v fs
unfolding release
release-IsCounted f fs w small c = elim (Option-cases (w.cells f.descriptor)) [
  | inl e ↦
      let none_held = subst (HeldBy (holders f.descriptor (f ∷ fs))) e (c.held f.descriptor) in
      absurd (omega (arith, none_held, holders_here f fs))
  | inr (d, e) ↦
      let (count, positive) =
        subst (HeldBy (holders f.descriptor (f ∷ fs))) e (c.held f.descriptor) in
      subst
        (λ (cell : Option Descriptor). (v : Heap) × (releasing f w cell ≡ some v) × IsCounted v fs)
        (sym e) (releasing-IsCounted f fs w d small c e (count ∙ holders_here f fs))
]

-- One more file holds the descriptor that some file holds.
pub share-IsCounted :
    (f : File) (fs : List File) (w : Heap)
    → length fs < 2 ^ 32 - 1
    → IsCounted w fs
    → 0 < holders f.descriptor fs
    → (v : Heap) × (share f.descriptor w ≡ some v) × IsCounted v (f ∷ fs)
unfolding share
share-IsCounted f fs w small c held = elim (Option-cases (w.cells f.descriptor)) [
  | inl e ↦
      let none_held = subst (HeldBy (holders f.descriptor fs)) e (c.held f.descriptor) in
      absurd (omega (arith, none_held))
  | inr (d, e) ↦
      let a = f.descriptor in
      let (count, positive) = subst (HeldBy (holders a fs)) e (c.held a) in
      subst
        (λ (cell : Option Descriptor).
          (v : Heap) × (sharing a w cell ≡ some v) × IsCounted v (f ∷ fs))
        (sym e)
        (
          _,
          refl,
          put-IsCounted w w fs (f ∷ fs) a (some (record d { cnt = (d.cnt + 1) % 2 ^ 32 })) c
              (λ b other. refl, refl) (used_below w fs a d c e)
              (
                omega (arith, count, holders_here f fs, holders_le a fs),
                omega (arith, holders_here f fs),
              )
              (holders_other f fs),
        )
]

-- A new file at an address that is not allocated.
pub new_file-IsCounted :
    (fs : List File) (w : Heap) → IsCounted w fs → IsCounted (new_file w).1 ((new_file w).0 ∷ fs)
unfolding new_file allocate
new_file-IsCounted fs w c =
    let none_there =
      subst (HeldBy (holders w.fresh fs)) (c.unused w.fresh (omega arith)) (c.held w.fresh) in
    let f : File = record { name = []; dir = []; descriptor = w.fresh } in
    record {
      held = λ b. elim (Bool-cases (b == w.fresh)) [
        | inl here ↦
            let at : b ≡ w.fresh = ground arith in
            let one : holders b (f ∷ fs) ≡ 1 =
              ap (λ (x : ℕ). holders x (f ∷ fs)) at ∙ holders_here f fs ∙ ap suc none_there in
            rw here (sym one, omega (arith, one))
        | inr there ↦ rw (there, holders_other f fs b there) (c.held b)
      ];
      unused = λ b beyond.
          let there : (b == w.fresh) ≡ false = ground arith in rw there (c.unused b (omega arith));
    }

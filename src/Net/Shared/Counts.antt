-- ===== src/Net/Shared/Counts.antt =====
-- The counts of shared Descriptors agree with the connections that hold them, and the SSL objects
-- that connections hold are not freed.
use mathlib.Core.Path.{subst}
use ip_utils.Base.{
  ℕ, suc, ◌+◌, ◌-◌, ◌%◌, ◌^◌, ◌<◌, ◌≡◌, refl, sym, ap, ◌∙◌, ◌≢◌, inl, inr, true, false, Option,
  none, some, List, [], ◌∷◌, arith, ◌==◌, Bool-cases, Option-cases, length,
}
use ip_utils.File.{put, Descriptor, File, Heap}
use ip_utils.File.Counts.{
  holders, holders_here, holders_other, holders_le, used_below, put-IsCounted, HeldBy, OnlyAt,
  IsCounted,
}
use ip_utils.Net.Shared.{close_fd, releasing, release, freed, free_last, Handle, World}

-- A connection as a holder of its Descriptor.
abbrev pub as_file : Handle → File
as_file h = record { name = []; dir = []; descriptor = h.descriptor }

abbrev pub files : List Handle → List File
files [] = []
files (h ∷ hs) = as_file h ∷ files hs

-- An SSL object is alive and was allocated, and all who hold it hold one Descriptor, its owner.
abbrev pub Holds : (ℕ → ℕ) → World → Option ℕ → ℕ → Type 0
Holds owner w none a = Unit
Holds owner w (some x) a = (w.alive x ≡ true) × (owner x ≡ a) × (x < w.next)

abbrev pub AllHold : (ℕ → ℕ) → World → List Handle → Type 0
AllHold owner w [] = Unit
AllHold owner w (h ∷ hs) = Holds owner w h.ssl h.descriptor × AllHold owner w hs

pub record IsShared (w : World) (hs : List Handle) : Type 0 where
  pub counted : IsCounted w.heap (files hs)
  pub owner : ℕ → ℕ
  pub tls : AllHold owner w hs

close_fd-OnlyAt :
    (a : ℕ) (w : Heap) (d : Descriptor) (fd : Option ℕ) → OnlyAt a w (close_fd a w d fd)
close_fd-OnlyAt a w d none = (λ b other. refl, refl)
close_fd-OnlyAt a w d (some fd) = (λ b other. rw other refl, refl)

-- One holder of a Descriptor goes.
releasing-IsCounted :
    (f : File) (fs : List File) (w : Heap) (d : Descriptor)
    → length fs < 2 ^ 32 - 1
    → IsCounted w (f ∷ fs)
    → w.cells f.descriptor ≡ some d
    → d.cnt ≡ suc (holders f.descriptor fs)
    → (v : Heap) × (releasing f.descriptor w (some d) ≡ some v) × IsCounted v fs
releasing-IsCounted f fs w d small c e count =
    let a = f.descriptor in
    let n = (d.cnt + (2 ^ 32 - 1)) % 2 ^ 32 in
    let less : n ≡ holders a fs = omega (arith, holders_le a fs) in
    let below : a < w.fresh = used_below w (f ∷ fs) a d c e in
    let same : (b : ℕ) → (b == a) ≡ false → holders b fs ≡ holders b (f ∷ fs) =
      λ b other. sym (holders_other f fs b other) in
    elim (Bool-cases (n == 0)) [
      | inl last ↦
          let d' : Descriptor = record d { cnt = n } in
          let (others, fresh) = close_fd-OnlyAt a (put w a (some d')) d' d'.fd in
          let gone : holders a fs ≡ 0 = ground (arith, less) in
          rw last (
            _,
            refl,
            put-IsCounted w (close_fd a (put w a (some d')) d' d'.fd) (f ∷ fs) fs a none c
                (λ b other. others b other ∙ rw other refl, fresh) below gone same,
          )
      | inr shared ↦ rw shared (
        _,
        refl,
        put-IsCounted w w (f ∷ fs) fs a (some (record d { cnt = n })) c (λ b other. refl, refl)
            below (less, ground arith) same,
      )
    ]

-- A Descriptor that is held is in its cell, with the count of its holders.
pub held_cell :
    (f : File) (fs : List File) (w : Heap)
    → IsCounted w (f ∷ fs)
    → (d : Descriptor) × (w.cells f.descriptor ≡ some d) × (d.cnt ≡ suc (holders f.descriptor fs))
held_cell f fs w c = elim (Option-cases (w.cells f.descriptor)) [
  | inl e ↦
      let none_held = subst (HeldBy (holders f.descriptor (f ∷ fs))) e (c.held f.descriptor) in
      absurd (omega (arith, none_held, holders_here f fs))
  | inr (d, e) ↦
      let (count, positive) =
        subst (HeldBy (holders f.descriptor (f ∷ fs))) e (c.held f.descriptor) in
      (d, e, count ∙ holders_here f fs)
]

pub release-IsCounted :
    (f : File) (fs : List File) (w : Heap)
    → length fs < 2 ^ 32 - 1
    → IsCounted w (f ∷ fs)
    → (v : Heap) × (release f.descriptor w ≡ some v) × IsCounted v fs
unfolding release
release-IsCounted f fs w small c =
    let (d, e, count) = held_cell f fs w c in
    subst
      (λ (cell : Option Descriptor).
        (v : Heap) × (releasing f.descriptor w cell ≡ some v) × IsCounted v fs)
      (sym e) (releasing-IsCounted f fs w d small c e count)

-- Freeing an object whose owner none of these hold leaves theirs alone.
freed-Holds :
    (owner : ℕ → ℕ) (w : World) (x : ℕ) (ssl : Option ℕ) (a : ℕ)
    → owner x ≢ a
    → Holds owner w ssl a
    → Holds owner (freed x w) ssl a
freed-Holds owner w x none a other h = tt
freed-Holds owner w x (some y) a other (alive, owned, below) = elim (Bool-cases (y == x)) [
  | inl here ↦ let same : y ≡ x = ground arith in absurd (other (ap owner (sym same) ∙ owned))
  | inr there ↦ (rw there alive, owned, below)
]

freed-AllHold :
    (owner : ℕ → ℕ) (w : World) (x : ℕ) (hs : List Handle)
    → holders (owner x) (files hs) ≡ 0
    → AllHold owner w hs
    → AllHold owner (freed x w) hs
unfolding holders
freed-AllHold owner w x [] unheld h = tt
freed-AllHold owner w x (g ∷ gs) unheld (here, there) =
    elim (Bool-cases (g.descriptor == owner x)) [
      | inl same ↦ absurd (ground arith)
      | inr other ↦ (
        freed-Holds owner w x g.ssl g.descriptor (λ e. ground arith) here,
        freed-AllHold owner w x gs (ground arith) there,
      )
    ]

-- What is left when a connection has let go of its SSL object and not yet of its Descriptor.
pub record IsLoose (w : World) (h : Handle) (hs : List Handle) : Type 0 where
  pub counted : IsCounted w.heap (as_file h ∷ files hs)
  pub owner : ℕ → ℕ
  pub tls : AllHold owner w hs

free_ssl-IsLoose :
    (h : Handle) (hs : List Handle) (w : World) (owner : ℕ → ℕ) (ssl : Option ℕ)
    → IsCounted w.heap (as_file h ∷ files hs)
    → Holds owner w ssl h.descriptor
    → AllHold owner w hs
    → (v : World) × (free_last h.descriptor ssl w ≡ some v) × IsLoose v h hs
free_ssl-IsLoose h hs w owner none c here there =
    (w, refl, record { counted = c; owner = owner; tls = there })
free_ssl-IsLoose h hs w owner (some x) c (alive, owned, below) there =
    let (d, e, count) = held_cell (as_file h) (files hs) w.heap c in
    elim (Bool-cases (d.cnt == 1)) [
      | inl last ↦
          let unheld : holders (owner x) (files hs) ≡ 0 = ground (arith, owned, count) in
          rw (e, last, alive)
            (
              freed x w,
              refl,
              record { counted = c; owner = owner; tls = freed-AllHold owner w x hs unheld there },
            )
      | inr shared ↦ rw (e, shared) (w, refl, record { counted = c; owner = owner; tls = there })
    ]

pub free_last-IsLoose :
    (h : Handle) (hs : List Handle) (w : World)
    → IsShared w (h ∷ hs)
    → (v : World) × (free_last h.descriptor h.ssl w ≡ some v) × IsLoose v h hs
free_last-IsLoose h hs w s =
    let (here, there) = s.tls in free_ssl-IsLoose h hs w s.owner h.ssl s.counted here there

heap-Holds :
    (owner : ℕ → ℕ) (w : World) (heap : Heap) (ssl : Option ℕ) (a : ℕ)
    → Holds owner w ssl a
    → Holds owner (record w { heap = heap }) ssl a
heap-Holds owner w heap none a h = tt
heap-Holds owner w heap (some x) a h = h

-- A change of the heap of descriptors alone.
pub heap-AllHold :
    (owner : ℕ → ℕ) (w : World) (heap : Heap) (hs : List Handle)
    → AllHold owner w hs
    → AllHold owner (record w { heap = heap }) hs
heap-AllHold owner w heap [] h = tt
heap-AllHold owner w heap (g ∷ gs) (here, there) =
    (heap-Holds owner w heap g.ssl g.descriptor here, heap-AllHold owner w heap gs there)

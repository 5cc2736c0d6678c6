-- ===== src/File/Runs.antt =====
-- Programs over File objects: each command is one operation that counts references.
use ip_utils.Base.{
  ℕ, zero, suc, ◌+◌, ◌-◌, ◌^◌, ◌≤◌, ◌<◌, ◌≡◌, refl, ap, ◌∙◌, Option, none, some, List, [], ◌∷◌,
  arith, ◌==◌, if◌then◌else◌, length,
}
use ip_utils.File.{new_file, release, copy_file, assign, clear_file, File, Heap}
use ip_utils.File.Counts.{
  holders, holders_here, release-IsCounted, share-IsCounted, new_file-IsCounted, IsCounted,
}

-- A File is named by its place in the list of those that are alive; the source of an assignment
-- by its place among the others.
pub data Command : Type 0 where
  construct : Command
  copy_of : ℕ → Command
  assign_to : ℕ → ℕ → Command
  destroy : ℕ → Command
  clear_at : ℕ → Command

abbrev pub behind {ℓ} : {A : Type ℓ} → A → Option (A × List A) → Option (A × List A)
behind f none = none
behind f (some (g, gs)) = some (g, f ∷ gs)

-- The one at a place, and the others.
unfoldable pub pick {ℓ} : {A : Type ℓ} → ℕ → List A → Option (A × List A)
pick i [] = none
pick zero (f ∷ fs) = some (f, fs)
pick (suc i) (f ∷ fs) = behind f (pick i fs)

abbrev pub Files : Type 0
Files = List File × Heap

abbrev keep_front : List File → Option (File × Heap) → Option Files
keep_front rest none = none
keep_front rest (some (g, w)) = some (g ∷ rest, w)

abbrev copying : List File → Heap → Option (File × List File) → Option Files
copying fs w none = some (fs, w)
copying fs w (some (f, rest)) = keep_front (f ∷ rest) (copy_file f w)

abbrev assigning : List File → Heap → File → Option (File × List File) → Option Files
assigning fs w f none = some (fs, w)
assigning fs w f (some (src, rest)) = keep_front (src ∷ rest) (assign f src w)

abbrev picking : List File → Heap → ℕ → Option (File × List File) → Option Files
picking fs w j none = some (fs, w)
picking fs w j (some (f, rest)) = assigning fs w f (pick j rest)

abbrev released : List File → Option Heap → Option Files
released rest none = none
released rest (some w) = some (rest, w)

abbrev destroying : List File → Heap → Option (File × List File) → Option Files
destroying fs w none = some (fs, w)
destroying fs w (some (f, rest)) = released rest (release f w)

abbrev clearing_one : List File → Heap → Option (File × List File) → Option Files
clearing_one fs w none = some (fs, w)
clearing_one fs w (some (f, rest)) = keep_front rest (clear_file f w)

-- A command for a place where no file is does nothing.
unfoldable pub run : Command → List File → Heap → Option Files
run construct fs w = let (f, w') = new_file w in some (f ∷ fs, w')
run (copy_of i) fs w = copying fs w (pick i fs)
run (assign_to i j) fs w = picking fs w j (pick i fs)
run (destroy i) fs w = destroying fs w (pick i fs)
run (clear_at i) fs w = clearing_one fs w (pick i fs)

abbrev then_run : Option Files → (List File → Heap → Option Files) → Option Files
then_run none f = none
then_run (some (fs, w)) f = f fs w

unfoldable pub run_all : List Command → List File → Heap → Option Files
run_all [] fs w = some (fs, w)
run_all (c ∷ cs) fs w = then_run (run c fs w) (run_all cs)

-- A run that reads no deleted descriptor, with its counts right, and at most `n` files.
abbrev pub Good : ℕ → Option Files → Type 0
Good n r = (fs : List File) × (w : Heap) × (r ≡ some (fs, w)) × IsCounted w fs × (length fs ≤ n)

same_holders :
    (w : Heap) (fs gs : List File)
    → ((a : ℕ) → holders a gs ≡ holders a fs)
    → IsCounted w fs
    → IsCounted w gs
same_holders w fs gs same c = record { held = λ a. rw (same a) (c.held a); unused = c.unused }

-- What is picked and the others are the same files.
abbrev Picked : List File → Option (File × List File) → Type 0
Picked fs none = Unit
Picked fs (some (f, rest)) =
    ((a : ℕ) → holders a (f ∷ rest) ≡ holders a fs) × (suc (length rest) ≡ length fs)

swap_holders :
    (a : ℕ) (f g : File) (gs : List File) → holders a (g ∷ f ∷ gs) ≡ holders a (f ∷ g ∷ gs)
unfolding holders
swap_holders a f g gs = ground arith

behind-Picked :
    (f : File) (fs : List File) (r : Option (File × List File))
    → Picked fs r
    → Picked (f ∷ fs) (behind f r)
unfolding holders
behind-Picked f fs none h = tt
behind-Picked f fs (some (g, gs)) (same, size) = (
  λ a. swap_holders a f g gs ∙ ap (λ (k : ℕ). if f.descriptor == a then suc k else k) (same a),
  omega (arith, size),
)

pick-Picked : (i : ℕ) (fs : List File) → Picked fs (pick i fs)
unfolding pick
pick-Picked i [] = tt
pick-Picked zero (f ∷ fs) = (λ a. refl, refl)
pick-Picked (suc i) (f ∷ fs) = behind-Picked f fs (pick i fs) (pick-Picked i fs)

copy-Good :
    (f : File) (rest : List File) (w : Heap) (n : ℕ)
    → suc (length rest) ≤ n
    → n < 2 ^ 32 - 1
    → IsCounted w (f ∷ rest)
    → Good (suc n) (keep_front (f ∷ rest) (copy_file f w))
unfolding copy_file
copy-Good f rest w n bound small c =
    let (v, res, counted) =
      share-IsCounted f (f ∷ rest) w (omega arith) c (omega (arith, holders_here f rest)) in
    rw res (_, v, refl, counted, omega arith)

destroy-Good :
    (f : File) (rest : List File) (w : Heap) (n : ℕ)
    → suc (length rest) ≤ n
    → n < 2 ^ 32 - 1
    → IsCounted w (f ∷ rest)
    → Good (suc n) (released rest (release f w))
destroy-Good f rest w n bound small c =
    let (v, res, counted) = release-IsCounted f rest w (omega arith) c in
    rw res (rest, v, refl, counted, omega arith)

clear-Good :
    (f : File) (rest : List File) (w : Heap) (n : ℕ)
    → suc (length rest) ≤ n
    → n < 2 ^ 32 - 1
    → IsCounted w (f ∷ rest)
    → Good (suc n) (keep_front rest (clear_file f w))
unfolding clear_file holders
clear-Good f rest w n bound small c =
    let g : File = record { name = []; dir = []; descriptor = f.descriptor } in
    let (v, res, counted) =
      release-IsCounted g rest w (omega arith)
        (same_holders w (f ∷ rest) (g ∷ rest) (λ a. refl) c) in
    rw res (_, _, refl, new_file-IsCounted rest v counted, omega arith)

assign-Good :
    (f src : File) (rest : List File) (w : Heap) (n : ℕ)
    → suc (suc (length rest)) ≤ n
    → n < 2 ^ 32 - 1
    → IsCounted w (f ∷ src ∷ rest)
    → Good (suc n) (keep_front (src ∷ rest) (assign f src w))
unfolding assign holders
assign-Good f src rest w n bound small c =
    let g : File = record src { descriptor = f.descriptor } in
    let (u, released_it, left) =
      release-IsCounted g (src ∷ rest) w (omega arith)
        (same_holders w (f ∷ src ∷ rest) (g ∷ src ∷ rest) (λ a. refl) c) in
    let (v, shared_it, counted) =
      share-IsCounted src (src ∷ rest) u (omega arith) left
        (omega (arith, holders_here src rest)) in
    rw (released_it, shared_it) (_, v, refl, counted, omega arith)

under :
    (f : File) (gs hs : List File) (a : ℕ)
    → holders a gs ≡ holders a hs
    → holders a (f ∷ gs) ≡ holders a (f ∷ hs)
unfolding holders
under f gs hs a same = ap (λ (k : ℕ). if f.descriptor == a then suc k else k) same

module _ (fs : List File) (w : Heap) (n : ℕ) (bound : length fs ≤ n) (small : n < 2 ^ 32 - 1)
    (c : IsCounted w fs) where
  nothing-Good : Good (suc n) (some (fs, w))
  nothing-Good = (fs, w, refl, c, omega arith)

  copying-Good : (r : Option (File × List File)) → Picked fs r → Good (suc n) (copying fs w r)
  copying-Good none h = nothing-Good
  copying-Good (some (f, rest)) (same, size) =
      copy-Good f rest w n (omega arith) small (same_holders w fs (f ∷ rest) same c)

  destroying-Good : (r : Option (File × List File)) → Picked fs r → Good (suc n) (destroying fs w r)
  destroying-Good none h = nothing-Good
  destroying-Good (some (f, rest)) (same, size) =
      destroy-Good f rest w n (omega arith) small (same_holders w fs (f ∷ rest) same c)

  clearing_one-Good :
      (r : Option (File × List File)) → Picked fs r → Good (suc n) (clearing_one fs w r)
  clearing_one-Good none h = nothing-Good
  clearing_one-Good (some (f, rest)) (same, size) =
      clear-Good f rest w n (omega arith) small (same_holders w fs (f ∷ rest) same c)

  assigning-Good :
      (f : File) (others : List File) (r : Option (File × List File))
      → Picked fs (some (f, others))
      → Picked others r
      → Good (suc n) (assigning fs w f r)
  assigning-Good f others none h k = nothing-Good
  assigning-Good f others (some (src, rest)) (same, size) (same', size') =
      assign-Good f src rest w n (omega arith) small (
        same_holders w fs (f ∷ src ∷ rest) (λ a. under f (src ∷ rest) others a (same' a) ∙ same a)
          c)

  picking-Good :
      (j : ℕ) (r : Option (File × List File)) → Picked fs r → Good (suc n) (picking fs w j r)
  picking-Good j none h = nothing-Good
  picking-Good j (some (f, rest)) h = assigning-Good f rest (pick j rest) h (pick-Picked j rest)

  run-Good : (command : Command) → Good (suc n) (run command fs w)
  unfolding run
  run-Good construct = (_, _, refl, new_file-IsCounted fs w c, omega arith)
  run-Good (copy_of i) = copying-Good (pick i fs) (pick-Picked i fs)
  run-Good (assign_to i j) = picking-Good j (pick i fs) (pick-Picked i fs)
  run-Good (destroy i) = destroying-Good (pick i fs) (pick-Picked i fs)
  run-Good (clear_at i) = clearing_one-Good (pick i fs) (pick-Picked i fs)

run_all-Good :
    (cs : List Command) (fs : List File) (w : Heap) (n : ℕ)
    → length fs ≤ n
    → n + length cs < 2 ^ 32 - 1
    → IsCounted w fs
    → Good (n + length cs) (run_all cs fs w)
unfolding run_all
run_all-Good [] fs w n bound small c = (fs, w, refl, c, omega arith)
run_all-Good (command ∷ cs) fs w n bound small c =
    let (gs, v, res, counted, size) = run-Good fs w n bound (omega arith) c command in
    let (hs, u, res', counted', size') = run_all-Good cs gs v (suc n) size (omega arith) counted in
    rw (res, res') (hs, u, refl, counted', omega arith)

-- Any program of constructions, copies, assignments between two objects, clears and destructions
-- of File objects, started where the reference counts agree with the files that are alive, with
-- fewer than 2 ^ 32 - 1 files and commands in all, reads no deleted descriptor, and ends where
-- each count is the number of the files that hold the descriptor, none is held by no file, and no
-- file holds a deleted one.
pub run_all-IsCounted :
    (cs : List Command) (fs : List File) (w : Heap)
    → length fs + length cs < 2 ^ 32 - 1
    → IsCounted w fs
    → (gs : List File) × (v : Heap) × (run_all cs fs w ≡ some (gs, v)) × IsCounted v gs
run_all-IsCounted cs fs w small c =
    let (gs, v, res, counted, size) = run_all-Good cs fs w (length fs) (omega arith) small c in
    (gs, v, res, counted)

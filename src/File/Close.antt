-- ===== src/File/Close.antt =====
-- When a File gives up its descriptor: what is closed.
use ip_utils.Base.{
  ℕ, suc, ◌-◌, ◌^◌, ◌<◌, ◌≡◌, refl, ap, ◌∙◌, inl, inr, true, false, Option, none, some, [], ◌∷◌,
  ◌++◌, arith, ◌==◌, if◌then◌else◌, Bool-cases, codes, is_empty,
}
use ip_utils.File.{
  put, file_event, allocate, new_file, is_stdin_name, closing, close, close_either, delete,
  releasing, release, clear_file, Descriptor, File, Heap,
}
use ip_utils.ErrorHandler
use ip_utils.ErrorHandler.{ErrorHandler}

abbrev pub opened : ℕ → ℕ → Descriptor
opened fd cnt = record { fd = some fd; fp = none; cnt = cnt }

release_cell :
    (f : File) (w : Heap) (d : Descriptor)
    → w.cells f.descriptor ≡ some d
    → release f w ≡ releasing f w (some d)
unfolding release
release_cell f w d e = ap (releasing f w) e

-- What the release does once the count is `k`.
abbrev with_count : File → Heap → Descriptor → ℕ → Option Heap
with_count f w d k =
    let w' = put w f.descriptor (some (record d { cnt = k })) in
    if k == 0 then delete f.descriptor (close_either f w' d.fd d.fp) else some w'

release_count :
    (f : File) (w : Heap) (fd cnt : ℕ)
    → w.cells f.descriptor ≡ some (opened fd (suc cnt))
    → cnt < 2 ^ 32 - 1
    → release f w ≡ with_count f w (opened fd (suc cnt)) cnt
release_count f w fd cnt e small =
    release_cell f w (opened fd (suc cnt)) e
    ∙ ap (with_count f w (opened fd (suc cnt))) (omega arith)

same_cell : (a : ℕ) → (a == a) ≡ true
same_cell a = ground arith

close_opened :
    (f : File) (w : Heap) (fd cnt : ℕ)
    → is_empty f.name ≡ false
    → is_stdin_name f.name ≡ false
    → w.cells f.descriptor ≡ some (opened fd cnt)
    → close f w
      ≡ some (
          put
            (record w { closed = w.closed ++ (fd ∷ []) })
            f.descriptor
            (some (record { fd = none; fp = none; cnt = cnt })))
unfolding close
close_opened f w fd cnt named not_stdin e = ap (closing f w) e ∙ rw (named, not_stdin) refl

close_unnamed :
    (f : File) (w : Heap) (d : Descriptor)
    → is_empty f.name ≡ true
    → w.cells f.descriptor ≡ some d
    → close f w ≡ some (file_event w (codes "File::Close(): name is empty"))
unfolding close
close_unnamed f w d unnamed e = ap (closing f w) e ∙ rw unnamed refl

-- The last holder of a low-level descriptor that is open, a file with a name that is not "stdin",
-- closes the descriptor and deletes its cell when it is destroyed; any earlier holder closes
-- nothing and leaves the descriptor open for the others, with one holder less.
pub release_lem :
    (f : File) (w : Heap) (fd cnt : ℕ)
    → is_empty f.name ≡ false
    → is_stdin_name f.name ≡ false
    → w.cells f.descriptor ≡ some (opened fd (suc cnt))
    → cnt < 2 ^ 32 - 1
    → (v : Heap) × (release f w ≡ some v)
      × (v.closed ≡ (if cnt == 0 then w.closed ++ (fd ∷ []) else w.closed))
      × (v.cells f.descriptor ≡ (if cnt == 0 then none else some (opened fd cnt)))
      × (v.error ≡ w.error)
release_lem f w fd cnt named not_stdin e small =
    let a = f.descriptor in
    let w' = put w a (some (opened fd cnt)) in
    let here : w'.cells a ≡ some (opened fd cnt) = rw (same_cell a) refl in
    let start = release_count f w fd cnt e small in
    elim (Bool-cases (cnt == 0)) [
      | inl last ↦ rw last (
        put
            (put (record w' { closed = w.closed ++ (fd ∷ []) }) a
              (some (record { fd = none; fp = none; cnt = cnt })))
            a none,
        start ∙ rw last (ap (delete a) (close_opened f w' fd cnt named not_stdin here)),
        refl,
        rw (same_cell a) refl,
        refl,
      )
      | inr shared ↦ rw shared (w', start ∙ rw shared refl, refl, here, refl)
    ]

file_event_set :
    (w : Heap) → (file_event w (codes "File::Close(): name is empty")).error.event_flag ≡ true
unfolding ErrorHandler.init
file_event_set w = refl

-- `clear` of the last holder of a low-level descriptor that is open sets an event and closes
-- nothing, whatever the name of the file was, and the cell with the number of the descriptor is
-- deleted.
pub clear_file_leaks :
    (f : File) (w : Heap) (fd : ℕ)
    → w.cells f.descriptor ≡ some (opened fd 1)
    → f.descriptor < w.fresh
    → (g : File) × (v : Heap) × (clear_file f w ≡ some (g, v))
      × (v.closed ≡ w.closed)
      × (v.cells f.descriptor ≡ none)
      × (v.error.event_flag ≡ true)
unfolding clear_file new_file allocate
clear_file_leaks f w fd e below =
    let a = f.descriptor in
    let g : File = record { name = []; dir = []; descriptor = a } in
    let w' = put w a (some (opened fd 0)) in
    let here : w'.cells a ≡ some (opened fd 0) = rw (same_cell a) refl in
    let gone =
      release_count g w fd 0 e (omega arith)
      ∙ ap (delete a) (close_unnamed g w' (opened fd 0) refl here) in
    let other : (a == w.fresh) ≡ false = ground arith in
    rw gone (_, _, refl, refl, rw (other, same_cell a) refl, file_event_set w')

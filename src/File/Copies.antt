-- ===== src/File/Copies.antt =====
-- File.cc: Copy, which reads a file in chunks and writes them to a new one.
pub mod Whole
pub mod Short
use ip_utils.Base.{
  ℕ, zero, suc, ◌+◌, ◌-◌, Bool, true, false, not, Option, none, some, List, [], ◌∷◌, ◌++◌, ◌==◌,
  if◌then◌else◌, Bytes, codes, length, take, drop, cstr, is_empty, leb,
}
use ip_utils.ErrorHandler
use ip_utils.ErrorHandler.{ErrorHandler, ex_ioerr, ex_software}
use ip_utils.File.{◌>>=◌, file_event, new_file, close, release, File, Heap}
use ip_utils.File.Names
use ip_utils.File.Names.{open_file}

-- `FILE_CHUNK_SIZE`
abbrev pub chunk_size : ℕ
chunk_size = 4096

-- read(2) and write(2) of two open files, with `none` for -1, and what the messages of their
-- failures say.
pub record Disk (K : Type 0) : Type 0 where
  pub read : K → ℕ → ℕ → K × Option Bytes
  pub write : K → Option ℕ → Bytes → K × Option ℕ
  pub report : K → Bytes

-- The state and the errors behind a loop, and whether it returned from Copy.
pub record Ran (K : Type 0) : Type 0 where
  pub kernel : K
  pub error : ErrorHandler
  pub returned : Bool

module _ {K : Type 0} (os : Disk K) where
  abbrev copy_failed : ErrorHandler → Bytes → K → Ran K
  copy_failed e call k = record {
    kernel = k;
    error = ErrorHandler.init e ex_ioerr (some (codes "File::Copy(): " ++ (call ++ os.report k)));
    returned = true;
  }

  -- The inner loop, which writes `n - m` bytes from `tmp_buf + m` on, where `m` is what the last
  -- write took. `none` is fuel that ran out.
  unfoldable pub write_chunk : ℕ → K → ErrorHandler → Option ℕ → Bytes → ℕ → Option (Ran K)
  write_chunk zero k e to chunk m = none
  write_chunk (suc fuel) k e to chunk m =
      let (k', r) = os.write k to (drop m chunk) in
      elim r [
        | none ↦ some (copy_failed e (codes "write(") k')
        | some n ↦
            let rest = write_chunk fuel k' e to chunk n in
            if n == 0 then some (record { kernel = k'; error = e; returned = false }) else rest
      ]

  abbrev pub then_copy : Option (Ran K) → (K → ErrorHandler → Option (Ran K)) → Option (Ran K)
  then_copy none next = none
  then_copy (some r) next = if r.returned then some r else next r.kernel r.error

  -- The outer loop; the inner one has `rounds` of fuel.
  unfoldable pub copy_loop : ℕ → ℕ → K → ErrorHandler → ℕ → Option ℕ → Option (Ran K)
  unfolding write_chunk
  copy_loop zero rounds k e from to = none
  copy_loop (suc fuel) rounds k e from to =
      let (k', r) = os.read k from chunk_size in
      elim r [
        | none ↦ some (copy_failed e (codes "read(") k')
        | some chunk ↦
            let rest =
              then_copy (write_chunk rounds k' e to chunk 0)
                (λ k'' e'. copy_loop fuel rounds k'' e' from to) in
            if is_empty chunk
            then some (record { kernel = k'; error = e; returned = false })
            else rest
      ]

-- The name of the copy: a new name in the same directory, or the same name in a new one.
abbrev given : Option Bytes → Bool
given none = false
given (some text) = not (is_empty (cstr text))

unfoldable pub copy_name : File → Option Bytes → Option Bytes → Option (Option Bytes × Option Bytes)
copy_name f newname newdir =
    if given newname
    then some (newname, some f.dir)
    else if given newdir
    then some (some f.name, newdir)
    else none

abbrev noted : Heap → ErrorHandler → Heap
noted w e = record w { error = e }

module _ {K : Type 0} (os : Disk K) (sys_open : Bytes → Option ℕ) (report : Bytes → Bytes) where
  abbrev pub Copied : Type 0
  Copied = K × Heap

  abbrev with_state : K → Option Heap → Option Copied
  with_state k none = none
  with_state k (some w) = some (k, w)

  -- Behind the loop: the copy is closed, unless Copy has returned, and its object goes.
  abbrev finished : File → Heap → Option (Ran K) → Option Copied
  finished g w none = none
  finished g w (some r) = with_state r.kernel (
      (if r.returned then some (noted w r.error) else close g (noted w r.error)) >>= λ w'.
      release g w')

  abbrev copying : ℕ → ℕ → K → ℕ → File → Heap → Option Copied
  copying fuel rounds k from g w =
      w.cells g.descriptor >>= λ d. finished g w (copy_loop os fuel rounds k w.error from d.fd)

  -- The object of the copy, opened.
  abbrev opened_copy : File → Option Bytes → Option Bytes × Option Bytes → Heap → File × Option Heap
  opened_copy f sandbox (name, dir) w =
      let (g, w') = new_file w in
      let (g', e) = Names.init g w'.error name dir in
      (g', open_file sys_open report g' sandbox (noted w' e))

  abbrev copying_named :
      ℕ
      → ℕ
      → K
      → File
      → Option Bytes
      → ℕ
      → Heap
      → Option (Option Bytes × Option Bytes)
      → Option Copied
  copying_named fuel rounds k f sandbox from w none =
      some (k, file_event w (codes "File::Copy(): newname and newdir were NULL."))
  copying_named fuel rounds k f sandbox from w (some name) =
      let (g, opened) = opened_copy f sandbox name w in
      opened >>= λ w'. copying fuel rounds k from g w'

  abbrev copying_from :
      ℕ
      → ℕ
      → K
      → File
      → Option Bytes
      → Option Bytes
      → Option Bytes
      → Heap
      → Option ℕ
      → Option Copied
  copying_from fuel rounds k f sandbox newname newdir w none =
      some (k, file_event w (codes "File::Copy(): fd is NULL"))
  copying_from fuel rounds k f sandbox newname newdir w (some from) =
      copying_named fuel rounds k f sandbox from w (copy_name f newname newdir)

  -- `File::Copy`
  unfoldable pub copy :
      ℕ → ℕ → K → File → Option Bytes → Option Bytes → Option Bytes → Heap → Option Copied
  unfolding copy_loop copy_name new_file Names.init open_file close release
  copy fuel rounds k f sandbox newname newdir w =
      w.cells f.descriptor >>= λ d. copying_from fuel rounds k f sandbox newname newdir w d.fd

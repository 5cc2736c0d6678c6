-- ===== src/File/Moves.antt =====
-- File.cc: Fopen, Unlink and Rename. What the file system answers is a parameter.
use ip_utils.Base.{
  ℕ, Bool, Option, none, some, [], ◌∷◌, ◌++◌, if◌then◌else◌, Bytes, codes, cstr, is_empty,
}
use ip_utils.ErrorHandler
use ip_utils.ErrorHandler.{ErrorHandler, ex_ioerr}
use ip_utils.File.{◌>>=◌, put, file_event, is_stdin_name, close, fclose, Descriptor, File, Heap}
use ip_utils.File.Names.{is_some, is_path_slash_terminated, path}

abbrev io_failure : Heap → Bytes → Heap
io_failure w text = record w { error = ErrorHandler.init w.error ex_ioerr (some text) }

-- Close what is open, the stream first.
abbrev pub close_stream : File → Heap → Option ℕ → Option ℕ → Option Heap
close_stream f w (some fp) fd = fclose f w
close_stream f w none (some fd) = close f w
close_stream f w none none = some w

abbrev pub closed_first : File → Heap → Option Descriptor → Option Heap
closed_first f w none = none
closed_first f w (some d) = close_stream f w d.fp d.fd

-- fopen(3), unlink(2) and rename(2), and what the messages of their failures say.
module _ (sys_fopen : Bytes → Bytes → Option ℕ) (report : Bytes → Bytes) where
  abbrev fopened : Heap → ℕ → Descriptor → Bytes → Option ℕ → Heap
  fopened w a d at (some fp) = put w a (some (record d { fp = some fp }))
  fopened w a d at none = io_failure w (codes "File::Fopen(" ++ report at)

  abbrev fopening : File → Option Bytes → Bytes → Heap → Descriptor → Heap
  fopening f sandbox mode w d =
      let at = path f sandbox in
      if is_empty f.name
      then file_event w (codes "File::Fopen(): name is empty")
      else if is_some d.fd
      then file_event w (codes "File::Fopen(): fd is not NULL")
      else if is_some d.fp
      then w
      else if is_stdin_name f.name
      then put w f.descriptor (some (record d { fp = some 0 }))
      else fopened w f.descriptor d at (sys_fopen at mode)

  -- `File::Fopen`; the stream of the standard input is 0.
  unfoldable pub fopen : File → Option Bytes → Bytes → Heap → Option Heap
  unfolding path
  fopen f sandbox mode w = elim (w.cells f.descriptor) [
    | none ↦ none
    | some d ↦ some (fopening f sandbox mode w d)
  ]

module _ (sys_unlink : Bytes → Bool) (report : Bytes → Bytes) where
  abbrev unlinked : Bytes → Heap → Heap
  unlinked at w =
      if sys_unlink at then w else io_failure w (codes "File::Unlink(): unlink(" ++ report at)

  -- `File::Unlink`
  unfoldable pub unlink : File → Option Bytes → Heap → Option Heap
  unfolding path close fclose
  unlink f sandbox w =
      if is_empty f.name
      then some (file_event w (codes "File::Unlink(): name is empty"))
      else closed_first f w (w.cells f.descriptor) >>= λ w'. some (unlinked (path f sandbox) w')

-- The name and the directory that Rename gives, where they are not empty.
abbrev new_name : File → Option Bytes → File
new_name f none = f
new_name f (some name) = if is_empty (cstr name) then f else record f { name = cstr name }

abbrev slashed : Bytes → Bytes
slashed dir = if is_path_slash_terminated (some dir) then dir else dir ++ (b'/' ∷ [])

abbrev new_dir : File → Option Bytes → File
new_dir f none = f
new_dir f (some dir) = if is_empty (cstr dir) then f else record f { dir = slashed (cstr dir) }

-- The file under its new name.
unfoldable pub renamed : File → Option Bytes → Option Bytes → File
unfolding is_path_slash_terminated
renamed f name dir = new_dir (new_name f name) dir

module _ (sys_rename : Bytes → Bytes → Bool) (report : Bytes → Bytes → Bytes) where
  abbrev moved : Bytes → Bytes → Heap → Heap
  moved from to w =
      if sys_rename from to
      then w
      else io_failure w (codes "File::Rename(): rename(" ++ report from to)

  -- `File::Rename`, which keeps the new name when rename(2) fails.
  unfoldable pub rename :
      File → Option Bytes → Option Bytes → Option Bytes → Heap → Option (File × Heap)
  unfolding renamed path close fclose
  rename f sandbox name dir w =
      if is_empty f.name
      then some (f, file_event w (codes "File::Rename(): name is empty"))
      else closed_first f w (w.cells f.descriptor) >>= λ w'.
          let g = renamed f name dir in some (g, moved (path f sandbox) (path g sandbox) w')

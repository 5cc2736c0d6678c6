-- ===== src/File/Names.antt =====
-- File.cc: the names of a file, and the operations that open one.
use ip_utils.Base.{
  ℕ, Bool, true, false, ◌&&◌, ◌||◌, Option, none, some, [], ◌∷◌, ◌++◌, ◌==◌, if◌then◌else◌, Bytes,
  codes, length, cstr, snprintf, head_byte, is_empty, strncasecmp_eq,
}
use ip_utils.File.{put, file_event, same_bytes, is_stdin_name, Descriptor, File, Heap}
use ip_utils.ErrorHandler
use ip_utils.ErrorHandler.{ErrorHandler, ex_software, ex_dataerr, ex_ioerr}

abbrev pub slash : ℕ
slash = b'/'

-- A character that a path must not hold.
abbrev taints : ℕ → Bool
taints c = c == b'`' || c == b'|' || c == 92

unfoldable pub has_taint : Bytes → Bool
has_taint [] = false
has_taint (c ∷ cs) = taints c || has_taint cs

unfoldable pub is_path_tainted : Option Bytes → Bool
unfolding has_taint
is_path_tainted none = false
is_path_tainted (some path) = has_taint (cstr path)

unfoldable pub ends_in_slash : Bytes → Bool
ends_in_slash [] = false
ends_in_slash (c ∷ []) = c == slash
ends_in_slash (c ∷ d ∷ cs) = ends_in_slash (d ∷ cs)

unfoldable pub is_path_slash_terminated : Option Bytes → Bool
unfolding ends_in_slash
is_path_slash_terminated none = false
is_path_slash_terminated (some path) = ends_in_slash (cstr path)

-- `name_.erase(name_.size() - 1, 1)` behind a test of the last character; of an empty name the code
-- reads what stands before it, which is taken to be no slash.
unfoldable pub drop_slash : Bytes → Bytes
drop_slash [] = []
drop_slash (c ∷ []) = if c == slash then [] else c ∷ []
drop_slash (c ∷ d ∷ cs) = c ∷ drop_slash (d ∷ cs)

abbrev pub join_dir : ℕ → Bytes → Option (Bytes × Bytes) → Option (Bytes × Bytes)
join_dir c cs none = if c == slash then some (c ∷ [], cs) else none
join_dir c cs (some (dir, name)) = some (c ∷ dir, name)

-- What stands up to the last slash, and what stands behind it.
unfoldable pub split_last : Bytes → Option (Bytes × Bytes)
split_last [] = none
split_last (c ∷ cs) = join_dir c cs (split_last cs)

abbrev pub named : File → Bytes → Bytes → Option (Bytes × Bytes) → File
named f name dir none = record f { name = name; dir = dir }
named f name dir (some (d, n)) = record f { name = n; dir = d }

abbrev alias_stdin : Bytes → Bytes
alias_stdin name = if head_byte name == b'-' then codes "stdin" else name

unfoldable pub set_name : File → ErrorHandler → Option Bytes → File × ErrorHandler
unfolding drop_slash split_last
set_name f e none =
    (f, ErrorHandler.init e ex_software (some (codes "File::set_name(): name is NULL")))
set_name f e (some text) =
    let name = drop_slash (alias_stdin (cstr text)) in
    if is_path_tainted (some text)
    then (f, ErrorHandler.init e ex_dataerr (some (codes "File::set_name(): path is tainted")))
    else (named f name f.dir (split_last name), e)

unfoldable pub set_dir : File → ErrorHandler → Option Bytes → File × ErrorHandler
set_dir f e none =
    (f, ErrorHandler.init e ex_software (some (codes "File::set_dir(): dir is NULL")))
set_dir f e (some dir) =
    let text = cstr dir in
    (
      record f {
        dir = if is_path_slash_terminated (some text) then text else text ++ (slash ∷ []);
      },
      e,
    )

abbrev init_dir : Option Bytes → File × ErrorHandler → File × ErrorHandler
init_dir none (f, e) = (record f { dir = [] }, e)
init_dir (some dir) (f, e) = set_dir f e (some dir)

-- `File::Init`
unfoldable pub init : File → ErrorHandler → Option Bytes → Option Bytes → File × ErrorHandler
init f e name dir = init_dir dir (set_name f e name)

abbrev pub means_stdin : Bytes → Bool
means_stdin text = head_byte text == b'-' || strncasecmp_eq 5 (codes "stdin") text

-- `File::InitFromBuf`; the length that it is given is not used.
unfoldable pub init_from_buf : File → ErrorHandler → Option Bytes → File × ErrorHandler × ℕ
init_from_buf f e none =
    (f, ErrorHandler.init e ex_software (some (codes "File::InitFromBuf(): buf is NULL")), 0)
init_from_buf f e (some buf) =
    let text = cstr buf in
    let name = drop_slash text in
    if means_stdin text
    then (record f { name = codes "stdin" }, e, 1)
    else (named f name [] (split_last name), e, length text)

-- `FILE_MAX_PATH`
abbrev pub max_path : ℕ
max_path = 4096

abbrev sandbox_text : Option Bytes → Bytes
sandbox_text none = []
sandbox_text (some sandbox) = cstr sandbox

unfoldable pub path : File → Option Bytes → Bytes
path f sandbox = snprintf max_path [] (sandbox_text sandbox ++ (cstr f.dir ++ cstr f.name))

-- The two strings of `operator ==`.
unfoldable pub same_file : File → File → Bool
same_file f g = same_bytes f.name g.name && same_bytes f.dir g.dir

abbrev pub is_some {ℓ} : {A : Type ℓ} → Option A → Bool
is_some none = false
is_some (some a) = true

-- `IsOpen`
unfoldable pub is_open : File → Heap → Option Bool
is_open f w = elim (w.cells f.descriptor) [
  | none ↦ none
  | some d ↦ some (is_some d.fp || is_some d.fd)
]

abbrev fd_set : Heap → ℕ → Descriptor → ℕ → Heap
fd_set w a d fd =
    if is_some d.fp
    then file_event w (codes "File::set_fd(): fp is not NULL")
    else if is_some d.fd
    then file_event w (codes "File::set_fd(): fd is not NULL")
    else put w a (some (record d { fd = some fd }))

unfoldable pub set_fd : File → ℕ → Heap → Option Heap
set_fd f fd w = elim (w.cells f.descriptor) [
  | none ↦ none
  | some d ↦ some (fd_set w f.descriptor d fd)
]

abbrev fp_set : Heap → ℕ → Descriptor → ℕ → Heap
fp_set w a d fp =
    if is_some d.fd
    then file_event w (codes "File::set_fp(): fd is not NULL")
    else if is_some d.fp
    then file_event w (codes "File::set_fp(): fp is not NULL")
    else put w a (some (record d { fp = some fp }))

unfoldable pub set_fp : File → ℕ → Heap → Option Heap
set_fp f fp w = elim (w.cells f.descriptor) [
  | none ↦ none
  | some d ↦ some (fp_set w f.descriptor d fp)
]

-- What open(2) does with a path, and what the message of a failure says of it.
module _ (sys_open : Bytes → Option ℕ) (report : Bytes → Bytes) where
  abbrev opened_as : Heap → ℕ → Descriptor → Bytes → Option ℕ → Heap
  opened_as w a d at (some fd) = put w a (some (record d { fd = some fd }))
  opened_as w a d at none = record w {
    error = ErrorHandler.init w.error ex_ioerr (some (codes "File::Open(" ++ report at));
  }

  abbrev opening : File → Option Bytes → Heap → Descriptor → Heap
  opening f sandbox w d =
      let at = path f sandbox in
      if is_some d.fp
      then file_event w (codes "File::Open(): fp is not NULL")
      else if is_some d.fd
      then file_event w (codes "File::Open(): fd is not NULL")
      else if is_empty f.name
      then file_event w (codes "File::Open(): name is empty")
      else if is_stdin_name f.name
      then put w f.descriptor (some (record d { fd = some 0 }))
      else opened_as w f.descriptor d at (sys_open at)

  -- `File::Open`
  unfoldable pub open_file : File → Option Bytes → Heap → Option Heap
  open_file f sandbox w = elim (w.cells f.descriptor) [
    | none ↦ none
    | some d ↦ some (opening f sandbox w d)
  ]

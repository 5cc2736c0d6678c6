-- ===== src/File.antt =====
-- File.cc, Descriptor.cc: files that share reference-counted descriptors. Descriptors live in a
-- heap, and a File holds the address of one. An operation is `none` where the code reads a
-- descriptor that was deleted.
pub mod Counts
pub mod Runs
pub mod Close
pub mod Names
pub mod Paths
pub mod Moves
pub mod Copies
use ip_utils.Base.{
  ℕ, ◌+◌, ◌-◌, ◌%◌, ◌^◌, Bool, true, false, not, ◌&&◌, Option, none, some, List, [], ◌∷◌, ◌++◌,
  ◌==◌, if◌then◌else◌, Bytes, codes, is_empty,
}
use ip_utils.ErrorHandler
use ip_utils.ErrorHandler.{ErrorHandler, ex_software}

infixl 5 ◌>>=◌
abbrev pub ◌>>=◌ {ℓ κ} : {A : Type ℓ} {B : Type κ} → Option A → (A → Option B) → Option B
none >>= f = none
some a >>= f = f a

-- `none` is DESCRIPTOR_NULL or a NULL stream; `cnt` is an unsigned int.
pub record Descriptor : Type 0 where
  pub fd : Option ℕ
  pub fp : Option ℕ
  pub cnt : ℕ

pub record File : Type 0 where
  pub name : Bytes
  pub dir : Bytes
  pub descriptor : ℕ

-- The heap of descriptors with the address of the next allocation, the descriptors and streams
-- that were handed to close(2) and fclose(3), and the global error record.
pub record Heap : Type 0 where
  pub cells : ℕ → Option Descriptor
  pub fresh : ℕ
  pub closed : List ℕ
  pub fclosed : List ℕ
  pub error : ErrorHandler

-- The constructor of Descriptor.
abbrev pub new_descriptor : Descriptor
new_descriptor = record { fd = none; fp = none; cnt = 1 }

abbrev pub put : Heap → ℕ → Option Descriptor → Heap
put w a cell = record w { cells = λ b. if b == a then cell else w.cells b }

abbrev pub file_event : Heap → Bytes → Heap
file_event w text = record w { error = ErrorHandler.init w.error ex_software (some text) }

-- `new Descriptor()`: the address, and the heap.
unfoldable pub allocate : Heap → ℕ × Heap
allocate w = (w.fresh, put (record w { fresh = w.fresh + 1 }) w.fresh (some new_descriptor))

-- The constructor.
unfoldable pub new_file : Heap → File × Heap
new_file w = let (a, w') = allocate w in (record { name = []; dir = []; descriptor = a }, w')

-- Equality of two strings.
abbrev pub same_bytes : Bytes → Bytes → Bool
same_bytes [] [] = true
same_bytes (x ∷ xs) (y ∷ ys) = x == y && same_bytes xs ys
same_bytes xs ys = false

abbrev pub is_stdin_name : Bytes → Bool
is_stdin_name name = same_bytes name (codes "stdin")

abbrev closing_fd : File → Heap → Descriptor → Option ℕ → Option Heap
closing_fd f w d none = some w
closing_fd f w d (some fd) =
    if is_stdin_name f.name
    then some w
    else some (
        put (record w { closed = w.closed ++ (fd ∷ []) }) f.descriptor
          (some (record d { fd = none })))

abbrev closing_fp : File → Heap → Descriptor → Option ℕ → Option Heap
closing_fp f w d none = closing_fd f w d d.fd
closing_fp f w d (some fp) = some (file_event w (codes "File::Close(): fp is not NULL"))

abbrev closing : File → Heap → Option Descriptor → Option Heap
closing f w none = none
closing f w (some d) =
    if is_empty f.name
    then some (file_event w (codes "File::Close(): name is empty"))
    else closing_fp f w d d.fp

-- `File::Close`
unfoldable pub close : File → Heap → Option Heap
close f w = closing f w (w.cells f.descriptor)

abbrev fclosing_fp : File → Heap → Descriptor → Option ℕ → Option Heap
fclosing_fp f w d none = some w
fclosing_fp f w d (some fp) =
    if is_stdin_name f.name
    then some w
    else some (
        put (record w { fclosed = w.fclosed ++ (fp ∷ []) }) f.descriptor
          (some (record d { fp = none })))

abbrev fclosing_fd : File → Heap → Descriptor → Option ℕ → Option Heap
fclosing_fd f w d none = fclosing_fp f w d d.fp
fclosing_fd f w d (some fd) = some (file_event w (codes "File::Fclose(): fd is not NULL"))

abbrev fclosing : File → Heap → Option Descriptor → Option Heap
fclosing f w none = none
fclosing f w (some d) =
    if is_empty f.name
    then some (file_event w (codes "File::Fclose(): name is empty"))
    else fclosing_fd f w d d.fd

-- `File::Fclose`
unfoldable pub fclose : File → Heap → Option Heap
fclose f w = fclosing f w (w.cells f.descriptor)

-- Close what is open.
abbrev pub close_either : File → Heap → Option ℕ → Option ℕ → Option Heap
close_either f w (some fd) fp = close f w
close_either f w none (some fp) = fclose f w
close_either f w none none = some w

-- `delete descriptor_`
abbrev delete : ℕ → Option Heap → Option Heap
delete a none = none
delete a (some w) = some (put w a none)

abbrev releasing : File → Heap → Option Descriptor → Option Heap
releasing f w none = none
releasing f w (some d) =
    let d' : Descriptor = record d { cnt = (d.cnt + (2 ^ 32 - 1)) % 2 ^ 32 } in
    let w' = put w f.descriptor (some d') in
    if d'.cnt == 0 then delete f.descriptor (close_either f w' d.fd d.fp) else some w'

-- `if (!--descriptor_->cnt_) { ... }`, the destructor's body.
unfoldable pub release : File → Heap → Option Heap
release f w = releasing f w (w.cells f.descriptor)

abbrev sharing : ℕ → Heap → Option Descriptor → Option Heap
sharing a w none = none
sharing a w (some d) = some (put w a (some (record d { cnt = (d.cnt + 1) % 2 ^ 32 })))

-- `descriptor_->cnt_++`
unfoldable pub share : ℕ → Heap → Option Heap
share a w = sharing a w (w.cells a)

-- The copy constructor.
unfoldable pub copy_file : File → Heap → Option (File × Heap)
copy_file src w = do w' ← share src.descriptor w; some (src, w')

-- The assignment operator, which takes the new name before it releases the old descriptor.
unfoldable pub assign : File → File → Heap → Option (File × Heap)
assign f src w = do
  let named : File = record src { descriptor = f.descriptor }
  w' ← release named w
  w'' ← share src.descriptor w'
  some (src, w'')

-- `File::clear`, which clears the name before it releases the descriptor.
unfoldable pub clear_file : File → Heap → Option (File × Heap)
clear_file f w = do
  w' ← release (record { name = []; dir = []; descriptor = f.descriptor }) w
  some (new_file w')

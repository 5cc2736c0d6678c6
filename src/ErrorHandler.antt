-- ===== src/ErrorHandler.antt =====
-- ErrorHandler.cc, ErrorHandler.h: the global record of error events. A message is kept as the
-- text that its format string renders to; `none` is a NULL or empty format.
pub mod Messages
use ip_utils.Base.{
  ℕ, ◌-◌, Bool, true, false, not, Option, none, some, List, [], ◌∷◌, ◌++◌, if◌then◌else◌, Bytes,
  codes, take, cstr, snprintf,
}

-- sysexits(3)
abbrev pub ex_ok : ℕ
ex_ok = 0

abbrev pub ex_dataerr : ℕ
ex_dataerr = 65

abbrev pub ex_software : ℕ
ex_software = 70

abbrev pub ex_oserr : ℕ
ex_oserr = 71

abbrev pub ex_ioerr : ℕ
ex_ioerr = 74

abbrev pub scratch_buf_size : ℕ
scratch_buf_size = 4096

abbrev null_msg : Bytes
null_msg = codes "Internal error: msg_ is NULL"

pub record ErrorHandler : Type 0 where
  pub event_flag : Bool
  pub realm : ℕ
  pub sys_errno : ℕ
  pub msgs : List Bytes

-- The constructor.
abbrev pub no_error : ErrorHandler
no_error = record { event_flag = false; realm = ex_ok; sys_errno = 0; msgs = [] }

unfoldable pub set_realm : ErrorHandler → ℕ → ErrorHandler
set_realm e realm = record e { realm = realm }

unfoldable pub set_sys_errno : ErrorHandler → ℕ → ErrorHandler
set_sys_errno e sys_errno = record e { sys_errno = sys_errno }

-- `vsnprintf` into the scratch buffer, or the text for a missing format.
abbrev pub rendered : Option Bytes → Bytes
rendered none = null_msg
rendered (some text) = take (scratch_buf_size - 1) text

abbrev push : ErrorHandler → Bytes → ErrorHandler
push e msg = record e { msgs = e.msgs ++ (msg ∷ []) }

-- `ErrorHandler::Init`
unfoldable pub init : ErrorHandler → ℕ → Option Bytes → ErrorHandler
unfolding set_realm
init e realm format =
    let e' =
      if e.event_flag
      then push e (codes "WARN: ErrorHandler::Init() event_flag alrady set: ")
      else set_realm e realm in
    record (push e' (rendered format)) { event_flag = true }

-- `ErrorHandler::AppendMsg`
unfoldable pub append_msg : ErrorHandler → Option Bytes → ErrorHandler
unfolding set_realm
append_msg e format =
    let e' =
      if e.event_flag
      then e
      else record (set_realm
          (push e (codes "WARN: ErrorHandler::append_msg(): event_flag not set: ")) ex_software) {
            event_flag = true;
          } in
    push e' (rendered format)

unfoldable pub clear : ErrorHandler → ErrorHandler
clear e = record { event_flag = false; realm = ex_ok; sys_errno = 0; msgs = [] }

-- `ErrorHandler::print`: the loop over the messages, on the text printed so far.
print_msgs : Bytes → List Bytes → Bytes
print_msgs out [] = out
print_msgs out (m ∷ []) = snprintf scratch_buf_size out (cstr m)
print_msgs out (m ∷ n ∷ ms) =
    print_msgs (snprintf scratch_buf_size (snprintf scratch_buf_size out (cstr m)) (codes ": "))
      (n ∷ ms)

unfoldable pub print : ErrorHandler → Bytes
unfolding print_msgs
print e = print_msgs [] e.msgs

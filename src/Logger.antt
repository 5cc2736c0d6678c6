-- ===== src/Logger.antt =====
-- Logger.cc, Logger.h: the mechanisms of a log and their priorities, the command-line text that sets
-- them, and the text that a message is rendered to.
pub mod Verbosity
pub mod Arg
use ip_utils.Base.{
  ℕ, zero, suc, ◌+◌, ◌-◌, Bool, false, not, ◌&&◌, Option, none, some, List, [], ◌∷◌, ◌++◌, map, ltb,
  leb, ◌==◌, if◌then◌else◌, Bytes, codes, get_or, take, cstr, snprintf, lower, head_byte, is_empty,
  same_name,
}

abbrev pub max_buf_size : ℕ
max_buf_size = 102400

-- `LOG_INFO`, `LOG_NOTICE` and `LOG_DEBUG` of syslog(3).
abbrev pub log_notice : ℕ
log_notice = 5

abbrev pub log_info : ℕ
log_info = 6

abbrev pub log_debug : ℕ
log_debug = 7

-- `LOG_TO_STDERR`, `LOG_TO_FILE`, `LOG_TO_SCRIPT`, `LOGGER_NUM_MECHANISMS`
abbrev pub log_to_stderr : ℕ
log_to_stderr = 1

abbrev pub log_to_file : ℕ
log_to_file = 3

abbrev pub log_to_script : ℕ
log_to_script = 6

abbrev pub num_mechanisms : ℕ
num_mechanisms = 7

abbrev pub mechanism_names : List Bytes
mechanism_names =
    codes "null"
    ∷ codes "stderr"
    ∷ codes "stdout"
    ∷ codes "file"
    ∷ codes "console"
    ∷ codes "syslog"
    ∷ codes "script"
    ∷ []

-- `none` is LOG_NONE, the only negative value that the array ever holds.
pub record Logger : Type 0 where
  pub proc_name : Bytes
  pub log_file_path : Bytes
  pub script : Bytes
  pub mechanisms : List (Option ℕ)

-- The constructor.
abbrev pub new_logger : Logger
new_logger = record {
  proc_name = [];
  log_file_path = [];
  script = [];
  mechanisms = none ∷ some log_notice ∷ none ∷ none ∷ none ∷ none ∷ none ∷ [];
}

-- A write out of bounds changes nothing.
abbrev pub set : List (Option ℕ) → ℕ → Option ℕ → List (Option ℕ)
set [] i v = []
set (x ∷ xs) zero v = v ∷ xs
set (x ∷ xs) (suc i) v = x ∷ set xs i v

-- The table `prioritynames` of syslog.h is a parameter.
module _ (prioritynames : List (Bytes × ℕ)) where
  find_priority : Bytes → List (Bytes × ℕ) → ℕ
  find_priority name [] = log_info
  find_priority name ((n, val) ∷ rest) = if same_name n name then val else find_priority name rest

  unfoldable pub get_log_priority : Bytes → ℕ
  unfolding find_priority
  get_log_priority name =
      if is_empty (cstr name) then log_info else find_priority name prioritynames

  find_name : ℕ → List (Bytes × ℕ) → Bytes
  find_name priority [] = codes "none"
  find_name priority ((n, val) ∷ rest) = if val == priority then n else find_name priority rest

  unfoldable pub get_log_priority_name : ℕ → Bytes
  unfolding find_name
  get_log_priority_name priority = find_name priority prioritynames

find_mechanism : Bytes → ℕ → List Bytes → ℕ
find_mechanism name i [] = log_to_stderr
find_mechanism name i (n ∷ rest) = if same_name n name then i else find_mechanism name (i + 1) rest

unfoldable pub get_log_mechanism_type : Bytes → ℕ
unfolding find_mechanism
get_log_mechanism_type name =
    if is_empty (cstr name) then log_to_stderr else find_mechanism name 0 mechanism_names

unfoldable pub get_log_mechanism_name : ℕ → Bytes
get_log_mechanism_name i = get_or mechanism_names i []

-- `lc`: the string that is returned holds a NUL behind this.
unfoldable pub lc : Bytes → Bytes
lc p = map lower (cstr p)

unfoldable pub set_proc_name : Logger → Bytes → Logger
set_proc_name l name = record l { proc_name = cstr name }

unfoldable pub mechanism_priority : Logger → ℕ → Option ℕ
mechanism_priority l i =
    if ltb i num_mechanisms then get_or l.mechanisms i none else get_or l.mechanisms 0 none

-- A priority within the bounds, or LOG_NONE.
abbrev pub bounded : Option ℕ → Option ℕ
bounded none = none
bounded (some p) = if leb p log_debug then some p else none

-- `Logger::set_mechanism_priority(mechanism, priority)`, where `none` is a negative priority.
unfoldable pub set_mechanism_priority : Logger → ℕ → Option ℕ → Logger
set_mechanism_priority l i priority =
    if ltb i num_mechanisms
    then record l { mechanisms = set l.mechanisms i (bounded priority) }
    else l

unfoldable pub clear_mechanism : Logger → ℕ → Logger
clear_mechanism l i =
    if ltb i num_mechanisms then record l { mechanisms = set l.mechanisms i none } else l

-- `Logger::print`: the loop over the mechanisms prints into no room, as the string has its full
-- size from the start.
unfoldable pub print : Logger → Bytes
print l = take (max_buf_size - 1) (cstr l.proc_name)

abbrev pub louder : Option ℕ → Option ℕ
louder none = none
louder (some p) = some (p + 1)

abbrev pub quieter : Option ℕ → Option ℕ
quieter none = none
quieter (some zero) = none
quieter (some (suc p)) = some p

-- The loops over the mechanisms leave the first one out.
abbrev pub all_but_first : (Option ℕ → Option ℕ) → List (Option ℕ) → List (Option ℕ)
all_but_first f [] = []
all_but_first f (x ∷ xs) = x ∷ map f xs

unfoldable pub decrement_mechanism_priority : Logger → Logger
decrement_mechanism_priority l = record l { mechanisms = all_but_first quieter l.mechanisms }

unfoldable pub increment_mechanism_priority : Logger → Logger
increment_mechanism_priority l = record l { mechanisms = all_but_first louder l.mechanisms }

-- `s[strlen(s) - 1]`; `none` is a read before the string.
abbrev last_byte : Bytes → Option ℕ
last_byte [] = none
last_byte (x ∷ []) = some x
last_byte (x ∷ y ∷ xs) = last_byte (y ∷ xs)

abbrev log_name : Bytes → Bytes → Bytes
log_name name [] = name
log_name name (c ∷ ext) = if c == b'.' then name ++ (c ∷ ext) else name ++ (b'.' ∷ c ∷ ext)

abbrev slash_between : Option ℕ → Bytes → Option Bytes
slash_between none next = none
slash_between (some c) next =
    some (if not (c == b'/') && not (head_byte next == b'/') then b'/' ∷ [] else [])

abbrev log_path : Logger → Bytes → Bytes → Bytes → Option Bytes → Option Bytes → Option Logger
log_path l sandbox subdir filename none b = none
log_path l sandbox subdir filename (some a) none = none
log_path l sandbox subdir filename (some a) (some b) =
    some (record l { log_file_path = sandbox ++ (a ++ (subdir ++ (b ++ filename))) })

-- `Logger::InitLogFile`
unfoldable pub init_log_file : Logger → Bytes → Bytes → Bytes → Bytes → Option Logger
init_log_file l sandbox subdir name ext =
    log_path l sandbox subdir (log_name name ext) (slash_between (last_byte sandbox) subdir)
      (slash_between (last_byte subdir) name)

abbrev pub passes : ℕ → Option ℕ → Bool
passes priority none = false
passes priority (some p) = leb priority p

-- The mechanisms that a message goes to, from number `i` on.
unfoldable pub targets : ℕ → ℕ → List (Option ℕ) → List ℕ
targets priority i [] = []
targets priority i (x ∷ xs) =
    let rest = targets priority (i + 1) xs in if passes priority x then i ∷ rest else rest

abbrev pub tail_of : List (Option ℕ) → List (Option ℕ)
tail_of [] = []
tail_of (x ∷ xs) = xs

-- `Logger::Log`: the text, and the numbers of the mechanisms that are called with it. `now` is the
-- print of the time with its line feed removed, and `body` what the format renders to.
unfoldable pub log : List (Bytes × ℕ) → Logger → ℕ → Bytes → Bytes → Bytes × List ℕ
unfolding targets
log prioritynames l priority now body =
    let prefix =
      cstr (get_log_priority_name prioritynames priority)
      ++ (codes ": " ++ (cstr l.proc_name ++ (codes ": " ++ (now ++ codes ": ")))) in
    (
      snprintf max_buf_size (snprintf max_buf_size (snprintf max_buf_size [] prefix) body)
          (10 ∷ []),
      targets priority 1 (tail_of l.mechanisms),
    )

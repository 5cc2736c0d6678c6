-- ===== src/Logger/Arg.antt =====
-- Logger.cc, set_mechanism_priority(char*): the text `mechanism=argument:priority`.
use ip_utils.Base.{
  ℕ, ◌≡◌, refl, sym, Bool, true, false, not, ◌&&◌, Option, none, some, List, [], ◌∷◌, ◌++◌,
  append_assoc, arith, ◌==◌, if◌then◌else◌, Bytes, is_empty, span_taken, span_rest, span_taken_stop,
  span_rest_stop, span_rest-All, AllKept, AllKept-mono, AllKept-append,
}
use ip_utils.Logger.{
  log_info, log_to_file, log_to_script, get_log_priority, get_log_mechanism_type,
  mechanism_priority, set_mechanism_priority, Logger,
}

-- Every byte but one.
abbrev other_than : ℕ → ℕ → Bool
other_than c x = not (x == c)

-- `strchr(text, c)`: what is behind the byte.
abbrev found : Bytes → Option Bytes
found [] = none
found (x ∷ rest) = some rest

abbrev after : ℕ → Bytes → Option Bytes
after c text = found (span_rest (other_than c) text)

abbrev before : ℕ → Bytes → Bytes
before c text = span_taken (other_than c) text

-- What stands behind the equals sign.
abbrev with_argument : Logger → ℕ → Option Bytes → Logger
with_argument l i none = l
with_argument l i (some arg) =
    if i == log_to_script
    then record l { script = arg }
    else if i == log_to_file
    then record l { log_file_path = arg }
    else l

abbrev defaulted : Logger → ℕ → Option ℕ → Logger
defaulted l i none = set_mechanism_priority l i (some log_info)
defaulted l i (some p) = l

-- What stands behind the colon.
abbrev with_priority : List (Bytes × ℕ) → Logger → ℕ → Option Bytes → Logger
with_priority names l i none = defaulted l i (mechanism_priority l i)
with_priority names l i (some name) =
    set_mechanism_priority l i (some (get_log_priority names name))

abbrev parse_arg : List (Bytes × ℕ) → Logger → Bytes → Option Bytes → Logger
parse_arg names l optarg priority =
    let i = get_log_mechanism_type (before b'=' optarg) in
    with_priority names (with_argument l i (after b'=' optarg)) i priority

-- `none` is the exit at a comma. The text is the C string.
unfoldable pub set_mechanism_arg : List (Bytes × ℕ) → Logger → Bytes → Option Logger
unfolding set_mechanism_priority mechanism_priority get_log_priority get_log_mechanism_type
set_mechanism_arg names l optarg =
    if is_empty (span_rest (other_than b',') optarg)
    then some (parse_arg names l (before b':' optarg) (after b':' optarg))
    else none

other_than_self : (c : ℕ) → other_than c c ≡ false
other_than_self c = ground arith

-- A text whose bytes are none of `,`, `:` and `=`, and one with no `,` and no `:`.
abbrev pub plain : ℕ → Bool
plain x = other_than b',' x && (other_than b':' x && other_than b'=' x)

abbrev pub uncut : ℕ → Bool
uncut x = other_than b',' x && other_than b':' x

no_comma :
    (xs : Bytes) → AllKept (other_than b',') xs → is_empty (span_rest (other_than b',') xs) ≡ true
no_comma xs h = rw (span_rest-All (other_than b',') xs h) refl

-- `file=path:priority` sets the path of the log file and the priority of this mechanism, and
-- nothing else, for a mechanism's name that is the one of the file in any case of letters, where the
-- name holds none of `,`, `:` and `=`, the path no `,` and no `:`, and the priority no `,`.
pub set_mechanism_arg-file :
    (names : List (Bytes × ℕ)) (l : Logger) (name path priority : Bytes)
    → AllKept plain name
    → AllKept uncut path
    → AllKept (other_than b',') priority
    → get_log_mechanism_type name ≡ log_to_file
    → set_mechanism_arg names l (name ++ (b'=' ∷ (path ++ (b':' ∷ priority))))
      ≡ some (
          set_mechanism_priority
            (record l { log_file_path = path })
            log_to_file
            (some (get_log_priority names priority)))
unfolding set_mechanism_arg
set_mechanism_arg-file names l name path priority hn hp hq file =
    let text = name ++ (b'=' ∷ path) in
    let part : name ++ (b'=' ∷ (path ++ (b':' ∷ priority))) ≡ text ++ (b':' ∷ priority) =
      sym (append_assoc name (b'=' ∷ path) (b':' ∷ priority)) in
    let no_colon : AllKept (other_than b':') text =
      AllKept-append (other_than b':') name (b'=' ∷ path)
        (AllKept-mono plain (other_than b':') name (λ c h. ground arith) hn)
        (refl, AllKept-mono uncut (other_than b':') path (λ c h. ground arith) hp) in
    let commas : AllKept (other_than b',') (text ++ (b':' ∷ priority)) =
      AllKept-append (other_than b',') text (b':' ∷ priority)
        (AllKept-append (other_than b',') name (b'=' ∷ path)
          (AllKept-mono plain (other_than b',') name (λ c h. ground arith) hn)
          (refl, AllKept-mono uncut (other_than b',') path (λ c h. ground arith) hp))
        (refl, hq) in
    let no_equals = AllKept-mono plain (other_than b'=') name (λ c h. ground arith) hn in
    rw
      (
        part,
        no_comma (text ++ (b':' ∷ priority)) commas,
        span_taken_stop (other_than b':') text b':' priority no_colon refl,
        span_rest_stop (other_than b':') text b':' priority no_colon refl,
        span_taken_stop (other_than b'=') name b'=' path no_equals refl,
        span_rest_stop (other_than b'=') name b'=' path no_equals refl,
        file,
      )
      refl

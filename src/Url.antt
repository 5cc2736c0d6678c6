-- ===== src/Url.antt =====
-- URL.cc, URL.h: the fields of a URL and its mutators. A `const char*` is an `Option Bytes`, where
-- `none` is NULL; the bytes are the buffer, and reading behind them gives NUL.
pub mod Compare
pub mod Parse
pub mod Print
pub mod Taint
pub mod PathQuery
pub mod RoundTrip
use ip_utils.Base.{
  ℕ, zero, suc, ◌+◌, ◌-◌, ◌%◌, ◌^◌, Bool, false, not, ◌&&◌, ◌||◌, Option, none, some, List, [], ◌∷◌,
  ◌++◌, ltb, leb, ◌==◌, if◌then◌else◌, Bytes, codes, length, get_or, take, drop, cstr, isspace,
  head_byte, tail, is_empty, span_taken, span_rest,
}
use ip_utils.ErrorHandler
use ip_utils.ErrorHandler.{ErrorHandler, append_msg, ex_software}

abbrev pub max_size : ℕ
max_size = 4096

pub record QueryInfo : Type 0 where
  pub key : Bytes
  pub value : Bytes

pub record Url : Type 0 where
  pub scheme : Bytes
  pub host : Bytes
  pub port : ℕ
  pub path : Bytes
  pub query : List QueryInfo
  pub fragment : Bytes

-- The constructor, and `URL::clear`.
abbrev pub empty_url : Url
empty_url = record { scheme = []; host = []; port = 0; path = []; query = []; fragment = [] }

abbrev pub tainted_msg : Bytes
tainted_msg = codes "STR_TAINTED"

abbrev pub is_nasty : ℕ → Bool
is_nasty c = c == b'`' || c == b'|' || c == b'\\'

-- The loop of `is_str_tainted`.
unfoldable pub has_nasty : Bytes → Bool
has_nasty [] = false
has_nasty (c ∷ cs) = is_nasty c || has_nasty cs

unfoldable pub is_str_tainted : Option Bytes → Bool
is_str_tainted none = false
is_str_tainted (some str) = has_nasty (cstr str)

-- The value that a mutator stores for a string.
abbrev pub untaint : Bytes → Bytes
untaint str = if is_str_tainted (some str) then tainted_msg else cstr str

unfoldable pub set_scheme : Url → Option Bytes → Url
set_scheme u none = u
set_scheme u (some scheme) = record u { scheme = untaint scheme }

unfoldable pub set_host : Url → Option Bytes → Url
set_host u none = u
set_host u (some host) = record u { host = untaint host }

-- `in_port_t` has 16 bits.
unfoldable pub set_port : Url → ℕ → Url
set_port u port = record u { port = port % 2 ^ 16 }

unfoldable pub set_fragment : Url → Option Bytes → Url
set_fragment u none = u
set_fragment u (some fragment) = record u { fragment = untaint fragment }

abbrev pub in_key : ℕ → Bool
in_key c = not (c == b'=') && not (isspace c)

abbrev pub in_value : ℕ → Bool
in_value c = not (c == b'&') && not (isspace c)

abbrev pub push_query : Url → Bytes → Bytes → Url
push_query u key value = record u {
  query = u.query ++ (record { key = cstr key; value = cstr value } ∷ []);
}

-- `if (*buf_ptr == kQueryDelimiter)`, at the end of a round.
abbrev pub skip_delimiter : Bytes → Bytes
skip_delimiter buf = if head_byte buf == b'&' then tail buf else buf

-- The loop of `set_query` over the bytes left, on fuel: each round takes a `=` at least.
unfoldable pub query_loop : ℕ → Url → ErrorHandler → Bytes → Url × ErrorHandler
query_loop zero u e buf = (u, e)
query_loop (suc fuel) u e buf =
    let at_delimiter = span_rest in_key buf in
    let after = tail at_delimiter in
    let again =
      query_loop fuel (push_query u (span_taken in_key buf) (span_taken in_value after)) e
        (skip_delimiter (span_rest in_value after)) in
    if is_empty buf
    then (u, e)
    else if not (head_byte at_delimiter == b'=')
    then (
      u,
      ErrorHandler.init e ex_software (some (codes "URL::set_query(): buf does not have a '='")),
    )
    else again

unfoldable pub set_query : Url → ErrorHandler → Option Bytes → ℕ → Url × ErrorHandler
set_query u e none len = (u, e)
set_query u e (some buf) len =
    if not (get_or buf len 0 == 0) || ltb max_size len
    then (
      u,
      ErrorHandler.init e ex_software
          (some (codes "URL::set_query(): buf is not null terminated or too large")),
    )
    else query_loop (length (take len buf)) u e (take len buf)

abbrev pub in_path : ℕ → Bool
in_path c = not (c == 0) && not (c == b'?') && not (c == b'#')

-- `while (i++ < len && ...)` leaves `i` one above the number of bytes copied.
abbrev pub copied : ℕ → Bytes → Bytes
copied len buf = span_taken in_path (take len buf)

-- What follows the copy: `rest` is at `path_buf`.
unfoldable pub set_path_rest : Url → ErrorHandler → Bytes → ℕ → Url × ErrorHandler
set_path_rest u e rest len =
    if head_byte rest == b'?'
    then set_query u e (some rest) len
    else if head_byte rest == b'#'
    then (set_fragment u (some rest), e)
    else (u, e)

-- `len - i` is computed in a `size_t`.
unfoldable pub set_path : Url → ErrorHandler → Option Bytes → ℕ → Url × ErrorHandler
set_path u e none len = (u, e)
set_path u e (some buf) len =
    let n = length (copied len buf) in
    if leb len 0
    then (u, e)
    else if is_str_tainted (some buf)
    then (record u { path = tainted_msg }, e)
    else set_path_rest (record u { path = copied len buf }) e (drop n buf)
        ((len + 2 ^ 64 - (n + 1)) % 2 ^ 64)

unfoldable pub clear : Url → Url
clear u = empty_url

-- `URL::Init`
unfoldable pub init :
    Url
    → ErrorHandler
    → Option Bytes
    → Option Bytes
    → ℕ
    → Option Bytes
    → ℕ
    → Option Bytes
    → ℕ
    → Option Bytes
    → Url × ErrorHandler
init u e scheme host port path path_len query query_len fragment =
    let u' = set_port (set_host (set_scheme u scheme) host) port in
    let with_path = if path_len == 0 then (u', e) else set_path u' e path path_len in
    let (v, f) = with_path in
    let with_query = if query_len == 0 then (v, f) else set_query v f query query_len in
    let (w, g) = with_query in
    (
      set_fragment w fragment,
      if g.event_flag then append_msg g (some (codes "URL::Init(): ")) else g,
    )

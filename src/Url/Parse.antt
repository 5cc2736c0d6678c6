-- ===== src/Url/Parse.antt =====
-- `URL::InitFromBuf`. The buffer is its `len` bytes and the bytes `behind` them up to a NUL, which
-- only the search for a scheme reads. Each part of the body is a step; `halt` is its `return 0`.
use ip_utils.Base.{
  ℕ, ◌-◌, ◌^◌, min, Bool, false, not, ◌&&◌, Option, none, some, [], ◌∷◌, ◌++◌, ltb, ◌==◌,
  if◌then◌else◌, Bytes, codes, length, get_or, drop, cstr, ◌>>=◌, isspace, isdigit, head_byte, tail,
  is_empty, span_taken, span_rest, Step, next, halt, value,
}
use ip_utils.ErrorHandler
use ip_utils.ErrorHandler.{ErrorHandler, ex_software}
use ip_utils.Url.{empty_url, set_scheme, set_host, set_port, set_fragment, set_query, set_path, Url}

-- The object, the global error record, and the bytes left.
pub record Walk : Type 0 where
  pub url : Url
  pub error : ErrorHandler
  pub rest : Bytes

-- `strchr(buf, ':')`
unfoldable pub find_colon : Bytes → Option Bytes
find_colon [] = none
find_colon (c ∷ cs) = if c == 0 then none else if c == b':' then some (c ∷ cs) else find_colon cs

abbrev pub starts_authority : Option Bytes → Bool
starts_authority none = false
starts_authority (some at) = get_or at 1 0 == b'/' && get_or at 2 0 == b'/'

abbrev pub not_colon : ℕ → Bool
not_colon c = not (c == b':')

unfoldable pub take_scheme : Walk → Step Walk
take_scheme w =
    let at = span_rest not_colon w.rest in
    if is_empty at
    then halt w
    else let u = set_scheme w.url (some (span_taken not_colon w.rest)) in
      if ltb (length at) 4
      then halt (record w { url = u; rest = at })
      else next (record w { url = u; rest = drop 3 at })

unfoldable pub parse_scheme : Bytes → Walk → Step Walk
unfolding find_colon
parse_scheme behind w =
    if starts_authority (find_colon (w.rest ++ behind)) then take_scheme w else next w

abbrev pub in_host : ℕ → Bool
in_host c = not (c == b':') && not (c == b'/') && not (isspace c)

unfoldable pub parse_host : Walk → Step Walk
parse_host w = next (record w {
  url = set_host w.url (some (span_taken in_host w.rest));
  rest = span_rest in_host w.rest;
})

-- `strtoul(digits, NULL, 10)`
abbrev pub strtoul : Bytes → ℕ
strtoul digits = min (value digits) (2 ^ 64 - 1)

unfoldable pub parse_port : ℕ → Walk → Step Walk
parse_port default_port w =
    let after = tail w.rest in
    if not (head_byte w.rest == b':')
    then next (record w { url = set_port w.url default_port })
    else if is_empty after
    then halt (record w { rest = after })
    else next (record w {
      url = set_port w.url (strtoul (span_taken isdigit after));
      rest = span_rest isdigit after;
    })

abbrev pub to_path_end : ℕ → Bool
to_path_end c = not (c == b'?') && not (c == b'#') && not (isspace c)

abbrev pub put : Bytes → Url × ErrorHandler → Step Walk
put rest (u, e) = next (record { url = u; error = e; rest = rest })

unfoldable pub parse_path : Walk → Step Walk
parse_path w =
    let after = tail w.rest in
    let text = cstr (span_taken to_path_end after) in
    if not (head_byte w.rest == b'/')
    then next w
    else if is_empty after
    then halt (record w { rest = after })
    else put (span_rest to_path_end after) (set_path w.url w.error (some text) (length text))

abbrev pub to_query_end : ℕ → Bool
to_query_end c = not (c == b'#') && not (isspace c)

unfoldable pub parse_query : Walk → Step Walk
parse_query w =
    let after = tail w.rest in
    let text = cstr (span_taken to_query_end after) in
    if not (head_byte w.rest == b'?')
    then next w
    else if is_empty after
    then halt (record w { rest = after })
    else put (span_rest to_query_end after) (set_query w.url w.error (some text) (length text))

abbrev pub not_space : ℕ → Bool
not_space c = not (isspace c)

unfoldable pub parse_fragment : Walk → Step Walk
parse_fragment w =
    let after = tail w.rest in
    if not (head_byte w.rest == b'#')
    then next w
    else if is_empty after
    then halt (record w { rest = after })
    else next (record w {
      url = set_fragment w.url (some (span_taken not_space after));
      rest = span_rest not_space after;
    })

abbrev pub skip_spaces : Walk → Step Walk
skip_spaces w =
    let rest = span_rest isspace w.rest in
    if is_empty rest then halt w else next (record w { rest = rest })

unfoldable pub parse_parts : Bytes → ℕ → Walk → Step Walk
parse_parts behind default_port w =
    skip_spaces w
    >>= parse_scheme behind
    >>= parse_host
    >>= parse_port default_port
    >>= parse_path
    >>= parse_query
    >>= parse_fragment

-- The result of the call, by how its steps ended: the object, the errors and `len - n` or 0.
abbrev pub used : ℕ → Step Walk → Url × ErrorHandler × ℕ
used len (next w) = (w.url, w.error, len - length w.rest)
used len (halt w) = (w.url, w.error, 0)

unfoldable pub init_from_buf :
    Url → ErrorHandler → Option Bytes → Bytes → ℕ → Url × ErrorHandler × ℕ
unfolding parse_parts parse_scheme parse_host parse_port parse_path parse_query parse_fragment
    take_scheme
init_from_buf u e none behind default_port =
    (u, ErrorHandler.init e ex_software (some (codes "URL::InitFromBuf(): buf is NULL")), 0)
init_from_buf u e (some buf) behind default_port =
    if head_byte (buf ++ behind) == 0
    then (empty_url, e, 0)
    else used (length buf)
        (parse_parts behind default_port (record { url = empty_url; error = e; rest = buf }))

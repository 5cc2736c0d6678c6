-- ===== src/Url/Print.antt =====
-- `URL::print_abs_path` and `URL::print_absoluteURI`. A printed string is the C string in the
-- buffer of `kURLMaxSize` bytes, which each `snprintf` may fill up to its last byte.
use ip_utils.Base.{
  List, [], ◌∷◌, ◌++◌, ◌==◌, if◌then◌else◌, Bytes, codes, cstr, snprintf, is_empty, decimal,
}
use ip_utils.Url.{max_size, QueryInfo, Url}

-- One `snprintf` at the end of what the buffer holds.
abbrev pub emit : Bytes → Bytes → Bytes
emit = snprintf max_size

unfoldable pub print_query : Bytes → List QueryInfo → Bytes
print_query out [] = out
print_query out (q ∷ []) = emit (emit out (cstr q.key)) (b'=' ∷ cstr q.value)
print_query out (q ∷ r ∷ qs) =
    print_query (emit (emit (emit out (cstr q.key)) (b'=' ∷ cstr q.value)) (codes "&")) (r ∷ qs)

abbrev pub print_path : Url → Bytes
print_path u = if is_empty u.path then [] else emit [] (b'/' ∷ cstr u.path)

abbrev pub print_queries : Bytes → List QueryInfo → Bytes
print_queries out [] = out
print_queries out (q ∷ qs) = print_query (emit out (codes "?")) (q ∷ qs)

abbrev pub print_fragment : Bytes → Url → Bytes
print_fragment out u = if is_empty u.fragment then out else emit out (b'#' ∷ cstr u.fragment)

unfoldable pub print_abs_path : Url → Bytes
unfolding print_query
print_abs_path u = print_fragment (print_queries (print_path u) u.query) u

abbrev pub print_scheme : Url → Bytes
print_scheme u = if is_empty u.scheme then [] else emit [] (cstr u.scheme ++ codes "://")

abbrev pub print_host : Bytes → Url → Bytes
print_host out u = if is_empty u.host then out else emit out (cstr u.host)

abbrev pub print_port : Bytes → Url → Bytes
print_port out u = if u.port == 0 then out else emit out (b':' ∷ decimal u.port)

unfoldable pub print_absolute_uri : Url → Bytes
unfolding print_abs_path
print_absolute_uri u = emit (print_port (print_host (print_scheme u) u) u) (print_abs_path u)

-- ===== src/Url/RoundTrip/PrintText.antt =====
-- The printed text with no buffer: what `print_absoluteURI` gives where it fits.
use ip_utils.Base.{
  ◌-◌, ◌≡◌, ◌∙◌, ◌≢◌, inl, inr, false, List, [], ◌∷◌, ◌++◌, append_assoc, append-nil, ◌==◌,
  if◌then◌else◌, Bool-cases, Bytes, codes, take, All, take-append_take, cstr-All, snprintf-take,
  is_empty, decimal,
}
use ip_utils.Url.{max_size, QueryInfo, Url}
use ip_utils.Url.Print.{
  emit, print_query, print_path, print_queries, print_fragment, print_abs_path, print_scheme,
  print_host, print_port, print_absolute_uri,
}

unfoldable pub query_text : List QueryInfo → Bytes
query_text [] = []
query_text (q ∷ []) = q.key ++ (b'=' ∷ q.value)
query_text (q ∷ r ∷ qs) = q.key ++ (b'=' ∷ (q.value ++ (b'&' ∷ query_text (r ∷ qs))))

abbrev pub queries_text : List QueryInfo → Bytes
queries_text [] = []
queries_text (q ∷ qs) = b'?' ∷ query_text (q ∷ qs)

abbrev pub path_text : Bytes → Bytes
path_text path = if is_empty path then [] else b'/' ∷ path

abbrev pub fragment_text : Bytes → Bytes
fragment_text fragment = if is_empty fragment then [] else b'#' ∷ fragment

abbrev pub tail_text : Url → Bytes
tail_text u = path_text u.path ++ (queries_text u.query ++ fragment_text u.fragment)

abbrev pub uri_text : Url → Bytes
uri_text u = u.scheme ++ (codes "://" ++ (u.host ++ (b':' ∷ (decimal u.port ++ tail_text u))))

abbrev pub HasNoNul : Bytes → Type 0
HasNoNul = All (λ c. c ≢ 0)

-- What every string of a printable URL satisfies.
pub record IsText (u : Url) : Type 0 where
  pub scheme : HasNoNul u.scheme
  pub scheme_some : is_empty u.scheme ≡ false
  pub host : HasNoNul u.host
  pub host_some : is_empty u.host ≡ false
  pub port : (u.port == 0) ≡ false
  pub path : HasNoNul u.path
  pub query : All (λ q. HasNoNul q.key × HasNoNul q.value) u.query
  pub fragment : HasNoNul u.fragment

-- What the buffer holds of a text.
abbrev pub cut : Bytes → Bytes
cut = take (max_size - 1)

emit-cut : (out s : Bytes) → emit (cut out) s ≡ cut (out ++ s)
emit-cut = snprintf-take max_size

print_query-text :
    (qs : List QueryInfo) (out : Bytes)
    → All (λ q. HasNoNul q.key × HasNoNul q.value) qs
    → print_query (cut out) qs ≡ cut (out ++ query_text qs)
unfolding print_query query_text
print_query-text [] out h = rw append-nil
print_query-text (q ∷ []) out ((hk, hv), h) =
    rw
      (
        cstr-All q.key hk,
        cstr-All q.value hv,
        emit-cut out q.key,
        emit-cut (out ++ q.key) (b'=' ∷ q.value),
      )
      (rw append_assoc)
print_query-text (q ∷ r ∷ qs) out ((hk, hv), h) =
    rw
      (
        cstr-All q.key hk,
        cstr-All q.value hv,
        emit-cut out q.key,
        emit-cut (out ++ q.key) (b'=' ∷ q.value),
        emit-cut ((out ++ q.key) ++ (b'=' ∷ q.value)) (codes "&"),
      )
      (print_query-text (r ∷ qs) _ h ∙ simp append_assoc)

print_path-text : (u : Url) → IsText u → print_path u ≡ cut (path_text u.path)
print_path-text u t = elim (Bool-cases (is_empty u.path)) [
  | inl none_there ↦ rw none_there
  | inr some_there ↦ rw (some_there, cstr-All u.path t.path) (emit-cut [] (b'/' ∷ u.path))
]

print_queries-text :
    (qs : List QueryInfo) (out : Bytes)
    → All (λ q. HasNoNul q.key × HasNoNul q.value) qs
    → print_queries (cut out) qs ≡ cut (out ++ queries_text qs)
print_queries-text [] out h = rw append-nil
print_queries-text (q ∷ qs) out h =
    rw (emit-cut out (codes "?"))
      (print_query-text (q ∷ qs) (out ++ codes "?") h ∙ simp append_assoc)

print_fragment-text :
    (u : Url) (out : Bytes)
    → IsText u
    → print_fragment (cut out) u ≡ cut (out ++ fragment_text u.fragment)
print_fragment-text u out t = elim (Bool-cases (is_empty u.fragment)) [
  | inl none_there ↦ rw none_there (rw append-nil)
  | inr some_there ↦
      rw (some_there, cstr-All u.fragment t.fragment) (emit-cut out (b'#' ∷ u.fragment))
]

print_abs_path-text : (u : Url) → IsText u → print_abs_path u ≡ cut (tail_text u)
unfolding print_abs_path
print_abs_path-text u t =
    rw
      (
        print_path-text u t,
        print_queries-text u.query (path_text u.path) t.query,
        print_fragment-text u (path_text u.path ++ queries_text u.query) t,
      )
      (rw append_assoc)

authority-text :
    (u : Url)
    → IsText u
    → print_port (print_host (print_scheme u) u) u
      ≡ cut (u.scheme ++ (codes "://" ++ (u.host ++ (b':' ∷ decimal u.port))))
authority-text u t =
    rw
      (
        t.scheme_some,
        t.host_some,
        t.port,
        cstr-All u.scheme t.scheme,
        cstr-All u.host t.host,
        emit-cut [] (u.scheme ++ codes "://"),
        emit-cut (u.scheme ++ codes "://") u.host,
        emit-cut ((u.scheme ++ codes "://") ++ u.host) (b':' ∷ decimal u.port),
      )
      (simp append_assoc)

-- For a URL with a scheme, a host and a port that is not 0, and no NUL in a field,
-- `print_absoluteURI` writes scheme, host, port, path, queries and fragment in this order with
-- their delimiters, and cuts the text off at 4095 bytes.
pub print_absolute_uri-text : (u : Url) → IsText u → print_absolute_uri u ≡ take 4095 (uri_text u)
unfolding print_absolute_uri
print_absolute_uri-text u t =
    rw (authority-text u t, print_abs_path-text u t)
      (emit-cut (u.scheme ++ (codes "://" ++ (u.host ++ (b':' ∷ decimal u.port))))
          (cut (tail_text u))
        ∙ take-append_take 4095 (u.scheme ++ (codes "://" ++ (u.host ++ (b':' ∷ decimal u.port))))
            (tail_text u)
        ∙ simp append_assoc)

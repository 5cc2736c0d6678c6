-- ===== src/Url/RoundTrip.antt =====
-- `InitFromBuf` reads back what `print_absoluteURI` writes.
pub mod PrintText
pub mod Pieces
pub mod Query
use ip_utils.Base.{
  ℕ, ◌^◌, ◌≤◌, ◌<◌, ◌≡◌, refl, ap, ◌∙◌, ◌⊎◌, inl, inr, Bool, true, false, some, List, [], ◌∷◌, ◌++◌,
  append_assoc, arith, ◌==◌, Bytes, codes, length, length-append, All, take_all, ◌>>=◌, isspace,
  isdigit, head_byte, is_empty, Stops, AllKept, is_empty-append_cons, Step, next, decimal, value,
}
use ip_utils.ErrorHandler.{ErrorHandler}
use ip_utils.Url.{max_size, empty_url, QueryInfo, Url}
use ip_utils.Url.Parse.{
  not_colon, in_host, parse_host, parse_port, to_path_end, parse_path, to_query_end, parse_query,
  not_space, parse_fragment, parse_parts, init_from_buf, Walk,
}
use ip_utils.Url.Print.{print_absolute_uri}
use PrintText.{
  query_text, queries_text, path_text, fragment_text, tail_text, uri_text, HasNoNul, IsText,
  print_absolute_uri-text,
}
use Pieces.{plain, plain-HasNoNul, scheme_piece, host_piece, port_piece, path_piece, fragment_piece}
use Query.{IsQuery, key-HasNoNul, value-HasNoNul, query_piece, query_text_le}

-- A URL with a scheme, a host and a port, whose fields hold none of the delimiters that end them,
-- and whose text fits the buffer.
pub record IsWritable (u : Url) : Type 0 where
  pub scheme : AllKept (plain not_colon) u.scheme
  pub scheme_some : is_empty u.scheme ≡ false
  pub host : AllKept (plain in_host) u.host
  pub host_some : is_empty u.host ≡ false
  pub port_some : (u.port == 0) ≡ false
  pub port_fits : u.port < 2 ^ 16
  pub path : AllKept (plain to_path_end) u.path
  pub query : IsQuery u.query
  pub fragment : AllKept (plain not_space) u.fragment
  pub fits : length (uri_text u) < max_size

-- What may stand behind a URL: white space, or the end of the buffer.
abbrev pub EndsUrl : Bytes → Type 0
EndsUrl t = (t ≡ []) ⊎ (isspace (head_byte t) ≡ true)

query-HasNoNul :
    (qs : List QueryInfo) → IsQuery qs → All (λ q. HasNoNul q.key × HasNoNul q.value) qs
query-HasNoNul [] h = tt
query-HasNoNul (q ∷ qs) ((hk, hv), h) =
    ((key-HasNoNul q.key hk, value-HasNoNul q.value hv), query-HasNoNul qs h)

IsWritable-IsText : {u : Url} → IsWritable u → IsText u
IsWritable-IsText {u} w = record {
  scheme = plain-HasNoNul not_colon u.scheme w.scheme;
  scheme_some = w.scheme_some;
  host = plain-HasNoNul in_host u.host w.host;
  host_some = w.host_some;
  port = w.port_some;
  path = plain-HasNoNul to_path_end u.path w.path;
  query = query-HasNoNul u.query w.query;
  fragment = plain-HasNoNul not_space u.fragment w.fragment;
}

-- The first byte of the text behind a field is none that the field's walk takes.
module _ (t : Bytes) (ends : EndsUrl t) where
  end_head : (head_byte t ≡ 0) ⊎ (isspace (head_byte t) ≡ true)
  end_head = elim ends [ inl e ↦ inl (ap head_byte e) | inr s ↦ inr s ]

  fragment_end : Stops not_space t
  fragment_end = elim ends [ inl e ↦ inl e | inr s ↦ inr (rw s) ]

  fragment_other : (head_byte t == b'#') ≡ false
  unfolding isspace
  fragment_other = ground (arith, end_head)

  query_end : (f : Bytes) → Stops to_query_end (fragment_text f ++ t)
  query_end [] = elim ends [ inl e ↦ inl e | inr s ↦ inr (rw s (ground arith)) ]
  query_end (x ∷ xs) = inr refl

  query_other : (f : Bytes) → (head_byte (fragment_text f ++ t) == b'?') ≡ false
  unfolding isspace
  query_other [] = ground (arith, end_head)
  query_other (x ∷ xs) = refl

  path_end :
      (qs : List QueryInfo) (f : Bytes)
      → Stops to_path_end (queries_text qs ++ (fragment_text f ++ t))
  path_end [] [] = elim ends [ inl e ↦ inl e | inr s ↦ inr (rw s (ground arith)) ]
  path_end [] (x ∷ xs) = inr refl
  path_end (q ∷ qs) f = inr refl

  path_other :
      (qs : List QueryInfo) (f : Bytes)
      → (head_byte (queries_text qs ++ (fragment_text f ++ t)) == b'/') ≡ false
  unfolding isspace
  path_other [] [] = ground (arith, end_head)
  path_other [] (x ∷ xs) = refl
  path_other (q ∷ qs) f = refl

  port_end :
      (p : Bytes) (qs : List QueryInfo) (f : Bytes)
      → Stops isdigit (path_text p ++ (queries_text qs ++ (fragment_text f ++ t)))
  unfolding isspace isdigit
  port_end [] [] [] = elim ends [ inl e ↦ inl e | inr s ↦ inr (ground arith) ]
  port_end [] [] (x ∷ xs) = inr refl
  port_end [] (q ∷ qs) f = inr refl
  port_end (x ∷ xs) qs f = inr refl

regroup :
    (u : Url) (t : Bytes)
    → uri_text u ++ t
      ≡ u.scheme
        ++ (codes "://"
            ++ (u.host
                ++ (b':'
                    ∷ (decimal u.port
                        ++ (path_text u.path
                            ++ (queries_text u.query ++ (fragment_text u.fragment ++ t)))))))
regroup u t = simp append_assoc

query_fits : (u : Url) → IsWritable u → length (query_text u.query) ≤ max_size
query_fits u w = omega (
  arith,
  query_text_le u.query,
  length-append u.scheme (codes "://" ++ (u.host ++ (b':' ∷ (decimal u.port ++ tail_text u)))),
  length-append u.host (b':' ∷ (decimal u.port ++ tail_text u)),
  length-append (decimal u.port) (tail_text u),
  length-append (path_text u.path) (queries_text u.query ++ fragment_text u.fragment),
  length-append (queries_text u.query) (fragment_text u.fragment),
)

head_plain :
    (keep : ℕ → Bool) (xs t : Bytes)
    → AllKept (plain keep) xs
    → is_empty xs ≡ false
    → (head_byte (xs ++ t) == 0) ≡ false
head_plain keep [] t h some_there = cc
head_plain keep (x ∷ xs) t (hx, h) some_there = ground arith

parse_parts-uri_text :
    (u : Url) (e : ErrorHandler) (t behind : Bytes) (default_port : ℕ)
    → IsWritable u
    → EndsUrl t
    → parse_parts behind default_port
        (record { url = empty_url; error = e; rest = uri_text u ++ t })
      ≡ next (record { url = u; error = e; rest = t })
unfolding parse_parts
parse_parts-uri_text u e t behind default_port w ends =
    let f = fragment_text u.fragment ++ t in
    let q = queries_text u.query ++ f in
    let p = path_text u.path ++ q in
    let h = u.host ++ (b':' ∷ (decimal u.port ++ p)) in
    rw (regroup u t) (
      ap
        (λ (m : Step Walk).
          m
          >>= parse_host
          >>= parse_port default_port
          >>= parse_path
          >>= parse_query
          >>= parse_fragment)
        (scheme_piece empty_url e u.scheme h behind w.scheme w.scheme_some
          (is_empty-append_cons u.host b':' (decimal u.port ++ p)))
      ∙ ap
          (λ (m : Step Walk).
            m >>= parse_port default_port >>= parse_path >>= parse_query >>= parse_fragment)
          (host_piece _ e u.host (b':' ∷ (decimal u.port ++ p)) w.host (inr refl))
      ∙ ap (λ (m : Step Walk). m >>= parse_path >>= parse_query >>= parse_fragment)
          (port_piece _ e u.port default_port p w.port_fits
            (port_end t ends u.path u.query u.fragment))
      ∙ ap (λ (m : Step Walk). m >>= parse_query >>= parse_fragment)
          (path_piece _ e u.path q refl w.path (path_end t ends u.query u.fragment)
            (path_other t ends u.query u.fragment))
      ∙ ap (λ (m : Step Walk). m >>= parse_fragment)
          (query_piece _ e u.query f refl w.query (query_fits u w) (query_end t ends u.fragment)
            (query_other t ends u.fragment))
      ∙ fragment_piece _ e u.fragment t refl w.fragment (fragment_end t ends)
          (fragment_other t ends))

-- The print of a writable URL is its text.
pub print_absolute_uri-IsWritable : (u : Url) → IsWritable u → print_absolute_uri u ≡ uri_text u
print_absolute_uri-IsWritable u w =
    print_absolute_uri-text u (IsWritable-IsText w)
    ∙ take_all 4095 (uri_text u) (omega (arith, w.fits))

-- A URL with a scheme, a host and a port that is not 0, whose fields hold no white space, NUL,
-- tainted character or delimiter that ends them, and whose print is shorter than 4096 bytes, is
-- read back from its print, whatever white space and text stands behind it, and the call reports
-- the length of the print.
pub init_from_buf-print :
    (u v : Url) (e : ErrorHandler) (t behind : Bytes) (default_port : ℕ)
    → IsWritable u
    → EndsUrl t
    → init_from_buf v e (some (print_absolute_uri u ++ t)) behind default_port
      ≡ (u, e, length (print_absolute_uri u))
unfolding init_from_buf
init_from_buf-print u v e t behind default_port w ends =
    let text = uri_text u in
    let first : (head_byte ((text ++ t) ++ behind) == 0) ≡ false =
      rw (regroup u t, append_assoc) (head_plain not_colon u.scheme _ w.scheme w.scheme_some) in
    rw
      (
        print_absolute_uri-IsWritable u w,
        first,
        parse_parts-uri_text u e t behind default_port w ends,
      )
      (ap (λ (n : ℕ). (u, e, n)) (omega (arith, length-append text t)))

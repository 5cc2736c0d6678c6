-- ===== src/Url/Taint.antt =====
-- What `is_str_tainted` keeps out of a URL object.
use ip_utils.Base.{
  ℕ, zero, suc, ◌≡◌, refl, inl, inr, false, Option, none, some, [], ◌∷◌, ◌++◌, arith, leb, ◌==◌,
  Bool-cases, Bytes, length, take, cstr, ◌>>=◌, isdigit, head_byte, tail, span_taken, span_rest,
  Step, next, halt,
}
use ip_utils.ErrorHandler.{ErrorHandler}
use ip_utils.Url.{
  empty_url, has_nasty, is_str_tainted, untaint, set_scheme, set_host, set_port, set_fragment,
  in_key, in_value, push_query, skip_delimiter, query_loop, set_query, copied, set_path_rest,
  set_path, Url,
}
use ip_utils.Url.Parse.{
  not_colon, take_scheme, parse_scheme, in_host, parse_host, strtoul, parse_port, to_path_end,
  parse_path, to_query_end, parse_query, not_space, parse_fragment, skip_spaces, parse_parts, used,
  init_from_buf, Walk,
}

-- No field but the query holds a back quote, a bar or a backslash.
pub record IsClean (u : Url) : Type 0 where
  pub scheme : has_nasty u.scheme ≡ false
  pub host : has_nasty u.host ≡ false
  pub path : has_nasty u.path ≡ false
  pub fragment : has_nasty u.fragment ≡ false

abbrev StepIsClean : Step Walk → Type 0
StepIsClean (next w) = IsClean w.url
StepIsClean (halt w) = IsClean w.url

bind-IsClean :
    (m : Step Walk) (f : Walk → Step Walk)
    → StepIsClean m
    → ((w : Walk) → IsClean w.url → StepIsClean (f w))
    → StepIsClean (m >>= f)
bind-IsClean (next w) f h k = k w h
bind-IsClean (halt w) f h k = h

empty-IsClean : IsClean empty_url
unfolding has_nasty
empty-IsClean = record { scheme = refl; host = refl; path = refl; fragment = refl }

untaint_clean : (str : Bytes) → has_nasty (untaint str) ≡ false
unfolding is_str_tainted
untaint_clean str = elim (Bool-cases (has_nasty (cstr str))) [
  | inl bad ↦ rw bad (unfold has_nasty in refl)
  | inr good ↦ rw good good
]

set_scheme-IsClean : (u : Url) (s : Option Bytes) → IsClean u → IsClean (set_scheme u s)
unfolding set_scheme
set_scheme-IsClean u none h = h
set_scheme-IsClean u (some s) h = record {
  scheme = untaint_clean s;
  host = h.host;
  path = h.path;
  fragment = h.fragment;
}

set_host-IsClean : (u : Url) (s : Option Bytes) → IsClean u → IsClean (set_host u s)
unfolding set_host
set_host-IsClean u none h = h
set_host-IsClean u (some s) h = record {
  scheme = h.scheme;
  host = untaint_clean s;
  path = h.path;
  fragment = h.fragment;
}

set_port-IsClean : (u : Url) (port : ℕ) → IsClean u → IsClean (set_port u port)
unfolding set_port
set_port-IsClean u port h = record {
  scheme = h.scheme;
  host = h.host;
  path = h.path;
  fragment = h.fragment;
}

set_fragment-IsClean : (u : Url) (s : Option Bytes) → IsClean u → IsClean (set_fragment u s)
unfolding set_fragment
set_fragment-IsClean u none h = h
set_fragment-IsClean u (some s) h = record {
  scheme = h.scheme;
  host = h.host;
  path = h.path;
  fragment = untaint_clean s;
}

query_loop-IsClean :
    (fuel : ℕ) (u : Url) (e : ErrorHandler) (buf : Bytes)
    → IsClean u
    → IsClean (query_loop fuel u e buf).0
unfolding query_loop
query_loop-IsClean zero u e buf h = h
query_loop-IsClean (suc fuel) u e buf h =
    let after = tail (span_rest in_key buf) in
    ground (
      arith,
      query_loop-IsClean fuel (push_query u (span_taken in_key buf) (span_taken in_value after)) e
          (skip_delimiter (span_rest in_value after))
          (record { scheme = h.scheme; host = h.host; path = h.path; fragment = h.fragment }),
    )

set_query-IsClean :
    (u : Url) (e : ErrorHandler) (s : Option Bytes) (len : ℕ)
    → IsClean u
    → IsClean (set_query u e s len).0
unfolding set_query
set_query-IsClean u e none len h = h
set_query-IsClean u e (some buf) len h =
    ground (arith, query_loop-IsClean (length (take len buf)) u e (take len buf) h)

copied_clean :
    (len : ℕ) (buf : Bytes) → has_nasty (cstr buf) ≡ false → has_nasty (copied len buf) ≡ false
unfolding has_nasty span_taken
copied_clean zero buf h = refl
copied_clean (suc len) [] h = refl
copied_clean (suc len) (c ∷ cs) h = ground (arith, copied_clean len cs)

set_path_rest-IsClean :
    (u : Url) (e : ErrorHandler) (rest : Bytes) (len : ℕ)
    → IsClean u
    → IsClean (set_path_rest u e rest len).0
unfolding set_path_rest
set_path_rest-IsClean u e rest len h =
    ground (arith, set_query-IsClean u e (some rest) len h, set_fragment-IsClean u (some rest) h)

set_path-IsClean :
    (u : Url) (e : ErrorHandler) (s : Option Bytes) (len : ℕ)
    → IsClean u
    → IsClean (set_path u e s len).0
unfolding set_path
set_path-IsClean u e none len h = h
set_path-IsClean u e (some buf) len h = elim (Bool-cases (leb len 0)) [
  | inl nothing ↦ rw nothing h
  | inr work ↦ rw work (elim (Bool-cases (has_nasty (cstr buf))) [
    | inl bad ↦
        unfold is_str_tainted in
        rw bad (record {
          scheme = h.scheme;
          host = h.host;
          path = unfold has_nasty in refl;
          fragment = h.fragment;
        })
    | inr good ↦
        unfold is_str_tainted in
        rw good (
          set_path_rest-IsClean _ e _ _ (record {
            scheme = h.scheme;
            host = h.host;
            path = copied_clean len buf good;
            fragment = h.fragment;
          }))
  ])
]

module _ (w : Walk) (h : IsClean w.url) where
  parse_scheme-IsClean : (behind : Bytes) → StepIsClean (parse_scheme behind w)
  unfolding parse_scheme take_scheme
  parse_scheme-IsClean behind =
      ground (arith, set_scheme-IsClean w.url (some (span_taken not_colon w.rest)) h)

  parse_port-IsClean : (port : ℕ) → StepIsClean (parse_port port w)
  unfolding parse_port
  parse_port-IsClean port = ground (
    arith,
    set_port-IsClean w.url port h,
    set_port-IsClean w.url (strtoul (span_taken isdigit (tail w.rest))) h,
  )

  parse_path-IsClean : StepIsClean (parse_path w)
  unfolding parse_path
  parse_path-IsClean =
      let text = cstr (span_taken to_path_end (tail w.rest)) in
      ground (arith, set_path-IsClean w.url w.error (some text) (length text) h)

  parse_query-IsClean : StepIsClean (parse_query w)
  unfolding parse_query
  parse_query-IsClean =
      let text = cstr (span_taken to_query_end (tail w.rest)) in
      ground (arith, set_query-IsClean w.url w.error (some text) (length text) h)

  parse_fragment-IsClean : StepIsClean (parse_fragment w)
  unfolding parse_fragment
  parse_fragment-IsClean =
      ground (arith, set_fragment-IsClean w.url (some (span_taken not_space (tail w.rest))) h)

  skip_spaces-IsClean : StepIsClean (skip_spaces w)
  skip_spaces-IsClean = ground arith

  parse_host-IsClean : StepIsClean (parse_host w)
  unfolding parse_host
  parse_host-IsClean = set_host-IsClean w.url (some (span_taken in_host w.rest)) h

parse_parts-IsClean :
    (behind : Bytes) (port : ℕ) (w : Walk) → IsClean w.url → StepIsClean (parse_parts behind port w)
unfolding parse_parts
parse_parts-IsClean behind port w h =
    bind-IsClean _ parse_fragment
      (bind-IsClean _ parse_query
        (bind-IsClean _ parse_path
          (bind-IsClean _ (parse_port port)
            (bind-IsClean _ parse_host
              (bind-IsClean _ (parse_scheme behind) (skip_spaces-IsClean w h)
                (λ w h. parse_scheme-IsClean w h behind))
              parse_host-IsClean)
            (λ w h. parse_port-IsClean w h port))
          parse_path-IsClean)
        parse_query-IsClean)
      parse_fragment-IsClean

used-IsClean : (len : ℕ) (m : Step Walk) → StepIsClean m → IsClean (used len m).0
used-IsClean len (next w) h = h
used-IsClean len (halt w) h = h

-- Whatever the buffer holds, and also when the call gives up half-way, `InitFromBuf` leaves an
-- object whose scheme, host, path and fragment hold no back quote, bar or backslash.
pub init_from_buf-IsClean :
    (u : Url) (e : ErrorHandler) (buf behind : Bytes) (default_port : ℕ)
    → IsClean (init_from_buf u e (some buf) behind default_port).0
unfolding init_from_buf
init_from_buf-IsClean u e buf behind port =
    let parts = used-IsClean (length buf) _ (
      parse_parts-IsClean behind port (record { url = empty_url; error = e; rest = buf })
        empty-IsClean) in
    elim (Bool-cases (head_byte (buf ++ behind) == 0)) [
      | inl end ↦ rw end empty-IsClean
      | inr more ↦ rw more parts
    ]

-- ===== src/Http/MsgHdrLine/RoundTrip.antt =====
-- `ParseMsgHdr` reads back a header line that is written the way `print_msg_hdrs` writes it.
use ip_utils.Base.{
  ℕ, zero, suc, ◌+◌, ◌≤◌, ◌<◌, ◌≡◌, refl, sym, ap, ◌∙◌, ◌≢◌, inr, Bool, false, not, ◌&&◌,
  false≢true, some, List, [], ◌∷◌, ◌++◌, append_assoc, arith, ◌==◌, Bytes, codes, length,
  length-append, All, cstr-All, isspace, head_byte, is_empty, span_rest, AllKept, span_taken_of,
  span_rest_of, AllKept-mono,
}
use ip_utils.ErrorHandler.{ErrorHandler}
use ip_utils.Http.{Parameter, MsgField, Http}
use ip_utils.Http.MsgHdrLine.{
  carriage_return, line_feed, field_while, skip_delimiter, in_name, in_key, in_value, is_blank,
  parse_param, parse_params, parse_crlf, parse_line, parse_msg_hdr, got,
}

-- A byte that a part of a line may hold: none that ends the part, no NUL, and no line end.
abbrev pub kept_in : (ℕ → Bool) → ℕ → Bool
kept_in keep c = keep c && not (c == 0)

-- A part that does not begin with white space.
abbrev pub Starts : Bytes → Type 0
Starts xs = isspace (head_byte xs) ≡ false

abbrev pub IsPart : (ℕ → Bool) → Bytes → Type 0
IsPart keep xs = (is_empty xs ≡ false) × Starts xs × AllKept (kept_in keep) xs

abbrev pub param_text : Parameter → Bytes
param_text p = codes "; " ++ (p.key ++ (b'=' ∷ p.value))

unfoldable pub params_text : List Parameter → Bytes
params_text [] = []
params_text (p ∷ ps) = param_text p ++ params_text ps

abbrev pub crlf : Bytes
crlf = carriage_return ∷ line_feed ∷ []

-- One line of `print_msg_hdrs`.
abbrev pub line_text : MsgField → Bytes
line_text f = f.field_name ++ (codes ": " ++ (f.field_value ++ (params_text f.parameters ++ crlf)))

pub part-HasNoNul : (keep : ℕ → Bool) (xs : Bytes) → AllKept (kept_in keep) xs → All (λ c. c ≢ 0) xs
part-HasNoNul keep [] h = tt
part-HasNoNul keep (x ∷ xs) (hx, h) = (ground arith, part-HasNoNul keep xs h)

-- A part that ends at a byte which fails the test.
field_while_part :
    (keep : ℕ → Bool) (xs t : Bytes) (c : ℕ)
    → AllKept (kept_in keep) xs
    → keep c ≡ false
    → field_while keep (xs ++ (c ∷ t)) ≡ got (xs, c ∷ t)
unfolding field_while
field_while_part keep xs t c h stop =
    let kept : AllKept keep xs = AllKept-mono (kept_in keep) keep xs (λ x k. ground arith) h in
    rw
      (
        span_taken_of keep xs (c ∷ t) kept (inr stop),
        span_rest_of keep xs (c ∷ t) kept (inr stop),
        cstr-All xs (part-HasNoNul keep xs h),
      )
      refl

-- A delimiter and one blank in front of a part.
skip_delimiter_blank :
    (d : ℕ) (xs t : Bytes)
    → is_empty xs ≡ false
    → Starts xs
    → skip_delimiter (d ∷ (b' ' ∷ (xs ++ t))) ≡ got (xs ++ t)
unfolding skip_delimiter span_rest isspace
skip_delimiter_blank d [] t some_byte start = absurd (false≢true (sym some_byte))
skip_delimiter_blank d (x ∷ xs) t some_byte start = ground arith

-- A delimiter right before a part.
skip_delimiter_only :
    (d : ℕ) (xs t : Bytes)
    → is_empty xs ≡ false
    → Starts xs
    → skip_delimiter (d ∷ (xs ++ t)) ≡ got (xs ++ t)
unfolding skip_delimiter span_rest isspace
skip_delimiter_only d [] t some_byte start = absurd (false≢true (sym some_byte))
skip_delimiter_only d (x ∷ xs) t some_byte start = ground arith

-- The byte behind a value: the next parameter or the line end.
abbrev EndsValue : Bytes → Type 0
EndsValue t = (in_value (head_byte t) ≡ false) × (is_blank (head_byte t) ≡ false)

abbrev pub IsParam : Parameter → Type 0
IsParam p = IsPart in_key p.key × IsPart in_value p.value

parse_param_text :
    (p : Parameter) (c : ℕ) (t : Bytes)
    → IsParam p
    → in_value c ≡ false
    → parse_param (param_text p ++ (c ∷ t)) ≡ got (p, c ∷ t)
unfolding parse_param span_rest
parse_param_text p c t ((k_some, k_start, k_kept), (v_some, v_start, v_kept)) stop =
    let blank : is_blank c ≡ false = ground arith in
    let regroup : param_text p ++ (c ∷ t)
        ≡ b';' ∷ (b' ' ∷ (p.key ++ (b'=' ∷ (p.value ++ (c ∷ t))))) =
      ap (λ (xs : Bytes). b';' ∷ (b' ' ∷ xs)) (append_assoc p.key (b'=' ∷ p.value) (c ∷ t)) in
    rw
      (
        regroup,
        parse_param,
        skip_delimiter_blank b';' p.key (b'=' ∷ (p.value ++ (c ∷ t))) k_some k_start,
        field_while_part in_key p.key (p.value ++ (c ∷ t)) b'=' k_kept refl,
        skip_delimiter_only b'=' p.value (c ∷ t) v_some v_start,
        field_while_part in_value p.value t c v_kept stop,
        blank,
      )
      refl

-- What a line has behind its value begins with a byte that ends the value.
tail_text :
    (ps : List Parameter) (t : Bytes)
    → (c : ℕ) × (rest : Bytes) × (params_text ps ++ (crlf ++ t) ≡ c ∷ rest) × (in_value c ≡ false)
unfolding params_text
tail_text [] t = (carriage_return, _, refl, refl)
tail_text (p ∷ ps) t = (b';', _, refl, refl)

parse_params_text :
    (ps : List Parameter) (fuel : ℕ) (t : Bytes)
    → All IsParam ps
    → length ps < fuel
    → parse_params fuel (params_text ps ++ (crlf ++ t)) ≡ got (ps, crlf ++ t)
unfolding parse_params params_text
parse_params_text ps zero t h enough = absurd (omega arith)
parse_params_text [] (suc fuel) t h enough = refl
parse_params_text (p ∷ ps) (suc fuel) t (hp, h) enough =
    let (c, rest, begins, stop) = tail_text ps t in
    let one : parse_param ((param_text p ++ params_text ps) ++ (crlf ++ t))
        ≡ got (p, params_text ps ++ (crlf ++ t)) =
      ap parse_param
        (append_assoc (param_text p) (params_text ps) (crlf ++ t) ∙ ap (◌++◌ (param_text p)) begins)
      ∙ parse_param_text p c rest hp stop
      ∙ ap (λ (xs : Bytes). got (p, xs)) (sym begins) in
    rw (parse_params, one, parse_params_text ps fuel t h (omega arith)) refl

-- A field whose line is written without loss.
abbrev pub IsLine : MsgField → Type 0
IsLine f =
    (IsPart in_name f.field_name) × (IsPart in_value f.field_value) × All IsParam f.parameters

length-params_text : (ps : List Parameter) → length ps ≤ length (params_text ps)
unfolding params_text
length-params_text [] = omega arith
length-params_text (p ∷ ps) =
    omega (arith, length-params_text ps, length-append (param_text p) (params_text ps))

head_part :
    (xs t : Bytes)
    → is_empty xs ≡ false
    → (head_byte (xs ++ t) ≡ head_byte xs) × (is_empty (xs ++ t) ≡ false)
head_part [] t some_byte = absurd (false≢true (sym some_byte))
head_part (x ∷ xs) t some_byte = (refl, refl)

line_parts :
    (f : MsgField) (t : Bytes)
    → line_text f ++ t
      ≡ f.field_name
        ++ (b':' ∷ (b' ' ∷ (f.field_value ++ (params_text f.parameters ++ (crlf ++ t)))))
line_parts f t = simp append_assoc

parse_line-text :
    (f : MsgField) (t behind : Bytes) → IsLine f → parse_line (line_text f ++ t) behind ≡ got (f, t)
unfolding parse_crlf parse_line
parse_line-text f t behind ((n_some, n_start, n_kept), (v_some, v_start, v_kept), params) =
    let (c, rest, begins, stop) = tail_text f.parameters t in
    let parts : line_text f ++ t ≡ f.field_name ++ (b':' ∷ (b' ' ∷ (f.field_value ++ (c ∷ rest)))) =
      line_parts f t
      ∙ ap (λ (xs : Bytes). f.field_name ++ (b':' ∷ (b' ' ∷ (f.field_value ++ xs)))) begins in
    let start : isspace
          (head_byte (f.field_name ++ (b':' ∷ (b' ' ∷ (f.field_value ++ (c ∷ rest))))))
        ≡ false =
      ap isspace (head_part f.field_name _ n_some).0 ∙ n_start in
    let all_params : parse_params (length (c ∷ rest) + 1) (c ∷ rest)
        ≡ got (f.parameters, crlf ++ t) =
      ap (λ (xs : Bytes). parse_params (length xs + 1) xs) (sym begins)
      ∙ parse_params_text f.parameters _ t params (
          omega (
            arith,
            length-params_text f.parameters,
            length-append (params_text f.parameters) (crlf ++ t),
          )) in
    rw
      (
        parts,
        parse_line,
        start,
        field_while_part in_name f.field_name (b' ' ∷ (f.field_value ++ (c ∷ rest))) b':' n_kept
            refl,
        skip_delimiter_blank b':' f.field_value (c ∷ rest) v_some v_start,
        field_while_part in_value f.field_value rest c v_kept stop,
        all_params,
      )
      refl

-- A header line that is written as `print_msg_hdrs` writes it, parameters included, is read back
-- whatever text stands behind it, when each name, value and key has a byte, begins with no white
-- space, and holds no NUL and no delimiter that ends it: the field goes to the end of the list,
-- no event is raised, and the count is the length of the line.
pub parse_msg_hdr-line :
    (h : Http) (e : ErrorHandler) (f : MsgField) (t behind : Bytes)
    → IsLine f
    → parse_msg_hdr h e (some (line_text f ++ t)) behind
      ≡ (record h { msg_hdrs = h.msg_hdrs ++ (f ∷ []) }, e, length (line_text f))
unfolding parse_msg_hdr
parse_msg_hdr-line h e f t behind line =
    let (n_some, n_start, n_kept) = line.0 in
    let some_byte : is_empty (line_text f ++ t) ≡ false =
      ap is_empty (line_parts f t) ∙ (head_part f.field_name _ n_some).1 in
    rw (some_byte, parse_line-text f t behind line)
      (ap (λ (n : ℕ). (record h { msg_hdrs = h.msg_hdrs ++ (f ∷ []) }, e, n))
        (omega (arith, length-append (line_text f) t)))

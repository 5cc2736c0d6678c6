-- ===== src/Http/StartLine/Pieces.antt =====
-- The parts of a header's walk on the text that the printers write, with any text `t` behind it.
use ip_utils.Base.{
  ℕ, zero, suc, ◌%◌, ◌^◌, ◌≤◌, ◌<◌, ◌≡◌, refl, sym, ap, inr, Bool, true, false, some, List, [], ◌∷◌,
  ◌++◌, append_assoc, append-nil, arith, ltb, ◌==◌, Bytes, codes, length, length-append, All,
  drop_append, isspace, isdigit, head_byte, is_empty, span_taken, span_rest, span_taken-All, Stops,
  AllKept, span_taken_of, span_rest_of, is_empty-append, is_empty-append_cons, next, decimal,
  print_int, value, value-decimal, decimal-isdigit, decimal-ne-nil, strncasecmp_eq, strtol,
}
use ip_utils.Http.{MsgField, Http}
use ip_utils.Http.StartLine.{
  skip_byte, expect, int_of, parse_number, set_major, set_minor, known_version, check_version,
  http_slash, skip_http_slash, parse_version, after_msg_hdr, parse_msg_hdrs, HdrWalk,
}
use ip_utils.Http.MsgHdrLine.{carriage_return, in_name, parse_msg_hdr}
use ip_utils.Http.MsgHdrLine.RoundTrip.{
  IsPart, params_text, crlf, line_text, IsLine, parse_msg_hdr-line,
}
use ip_utils.Http.Print.Text.{lines_text}
use ip_utils.Http.Print.Hdr.{version_text}
use ip_utils.ErrorHandler.{ErrorHandler}

abbrev pub at : Http → ErrorHandler → Bytes → HdrWalk
at h e rest = record { http = h; error = e; rest = rest }

same_byte : (c : ℕ) → (c == c) ≡ true
same_byte c = ground arith

pub expect_piece :
    (h : Http) (e : ErrorHandler) (len : ℕ) (behind text : Bytes) (c : ℕ) (t : Bytes)
    → is_empty t ≡ false
    → expect len behind text c (at h e (c ∷ t)) ≡ next (at h e t)
unfolding expect skip_byte
expect_piece h e len behind text c t some_left = rw (same_byte c, some_left) refl

strtol-digits : (s : Bytes) → AllKept isdigit s → value s < 2 ^ 63 → strtol s ≡ value s
unfolding strtol span_rest isspace isdigit value span_taken
strtol-digits [] h small = refl
strtol-digits (c ∷ cs) (hc, h) small =
    let no_space : span_rest isspace (c ∷ cs) ≡ c ∷ cs = ground arith in
    let no_minus : (c == b'-') ≡ false = ground arith in
    let no_plus : (c == b'+') ≡ false = ground arith in
    rw (no_space, no_minus, no_plus, span_taken-All isdigit (c ∷ cs) (hc, h)) (omega arith)

pub int_of-decimal : (n : ℕ) → n < 2 ^ 31 → int_of (decimal n) ≡ n
int_of-decimal n small =
    let spelled : value (decimal n) ≡ n = value-decimal n (omega arith) in
    rw (strtol-digits (decimal n) (decimal-isdigit n) (omega (arith, spelled)), spelled)
      (omega arith)

pub number_piece :
    (set : ℕ → Http → Http) (h : Http) (e : ErrorHandler) (n : ℕ) (t : Bytes)
    → n < 2 ^ 31
    → is_empty t ≡ false
    → Stops isdigit t
    → parse_number set (at h e (decimal n ++ t)) ≡ next (at (set n h) e t)
unfolding parse_number
number_piece set h e n t small some_left stops =
    rw
      (
        span_rest_of isdigit (decimal n) t (decimal-isdigit n) stops,
        span_taken_of isdigit (decimal n) t (decimal-isdigit n) stops,
        some_left,
        int_of-decimal n small,
      )
      refl

-- A version that the parser knows.
abbrev pub IsKnown : Http → Type 0
IsKnown g = known_version g ≡ true

known_small : (g : Http) → IsKnown g → (g.major < 2 ^ 31) × (g.minor < 2 ^ 31)
unfolding known_version
known_small g known = (ground arith, ground arith)

print_int-decimal : (n : ℕ) → n < 2 ^ 31 → print_int n ≡ decimal n
print_int-decimal n small =
    let low : n % 2 ^ 32 ≡ n = omega arith in
    let positive : ltb n (2 ^ 31) ≡ true = ground arith in rw (low, positive) refl

skip_http_slash_piece :
    (h : Http) (e : ErrorHandler) (t : Bytes)
    → is_empty t ≡ false
    → skip_http_slash (at h e (http_slash ++ t)) ≡ next (at h e t)
unfolding skip_http_slash strncasecmp_eq
skip_http_slash_piece h e [] some_left = cc
skip_http_slash_piece h e (x ∷ t) some_left =
    let longer : ltb 5 (length (http_slash ++ (x ∷ t))) ≡ true = ground arith in rw longer refl

decimal_more : (n : ℕ) (t : Bytes) → is_empty (decimal n ++ t) ≡ false
decimal_more n t = is_empty-append (decimal n) t (decimal-ne-nil n)

pub version_piece :
    (h g : Http) (e : ErrorHandler) (len : ℕ) (behind dot_text text t : Bytes)
    → IsKnown g
    → is_empty t ≡ false
    → Stops isdigit t
    → parse_version len behind dot_text text (at h e (version_text g ++ t))
      ≡ next (at (record h { major = g.major; minor = g.minor }) e t)
unfolding parse_version check_version known_version isdigit
version_piece h g e len behind dot_text text t known some_left stops =
    let (small_major, small_minor) = known_small g known in
    let regroup : (http_slash ++ (decimal g.major ++ (b'.' ∷ decimal g.minor))) ++ t
        ≡ http_slash ++ (decimal g.major ++ (b'.' ∷ (decimal g.minor ++ t))) =
      simp append_assoc in
    rw
      (
        print_int-decimal g.major small_major,
        print_int-decimal g.minor small_minor,
        regroup,
        skip_http_slash_piece h e (decimal g.major ++ (b'.' ∷ (decimal g.minor ++ t)))
            (decimal_more g.major (b'.' ∷ (decimal g.minor ++ t))),
        number_piece set_major h e g.major (b'.' ∷ (decimal g.minor ++ t)) small_major refl
            (inr refl),
        expect_piece (set_major g.major h) e len behind dot_text b'.' (decimal g.minor ++ t)
            (decimal_more g.minor t),
        number_piece set_minor (set_major g.major h) e g.minor t small_minor some_left stops,
        known,
      )
      refl

name_first :
    (keep : ℕ → Bool) (xs t : Bytes)
    → IsPart keep xs
    → (head_byte (xs ++ t) == carriage_return) ≡ false
unfolding isspace
name_first keep [] t (some_byte, start, h) = cc
name_first keep (x ∷ xs) t (some_byte, start, h) = ground arith

line_starts :
    (f : MsgField) (t : Bytes)
    → IsLine f
    → (head_byte (line_text f ++ t) == carriage_return) ≡ false
line_starts f t (name, value_part, params) =
    rw
      (append_assoc f.field_name
        (codes ": " ++ (f.field_value ++ (params_text f.parameters ++ crlf))) t)
      (name_first in_name f.field_name _ name)

pub line_length : (f : MsgField) → 0 < length (line_text f)
line_length f = omega (
  arith,
  length-append f.field_name (codes ": " ++ (f.field_value ++ (params_text f.parameters ++ crlf))),
)

pub length-lines_text : (hs : List MsgField) → length hs ≤ length (lines_text hs)
unfolding lines_text
length-lines_text [] = omega arith
length-lines_text (x ∷ hs) =
    omega (arith, line_length x, length-append (line_text x) (lines_text hs), length-lines_text hs)

-- One round of the loop on one line.
msg_hdr_piece :
    (f : MsgField) (h : Http) (e : ErrorHandler) (behind t : Bytes)
    → IsLine f
    → is_empty t ≡ false
    → after_msg_hdr (line_text f ++ t) (parse_msg_hdr h e (some (line_text f ++ t)) behind)
      ≡ next (at (record h { msg_hdrs = h.msg_hdrs ++ (f ∷ []) }) e t)
msg_hdr_piece f h e behind t line some_left =
    let used : (length (line_text f) == 0) ≡ false = ground (arith, line_length f) in
    rw (parse_msg_hdr-line h e f t behind line, drop_append (line_text f) t, used, some_left) refl

pub msg_hdrs_piece :
    (hs : List MsgField) (fuel : ℕ) (h : Http) (e : ErrorHandler) (behind t : Bytes)
    → All IsLine hs
    → length hs < fuel
    → parse_msg_hdrs fuel behind (at h e (lines_text hs ++ (carriage_return ∷ t)))
      ≡ next (at (record h { msg_hdrs = h.msg_hdrs ++ hs }) e (carriage_return ∷ t))
unfolding parse_msg_hdrs lines_text
msg_hdrs_piece hs zero h e behind t lines enough = absurd (omega arith)
msg_hdrs_piece [] (suc fuel) h e behind t lines enough =
    ap (λ (ms : List MsgField). next (at (record h { msg_hdrs = ms }) e (carriage_return ∷ t)))
      (sym (append-nil h.msg_hdrs))
msg_hdrs_piece (x ∷ hs) (suc fuel) h e behind t (line, lines) enough =
    let rest = lines_text hs ++ (carriage_return ∷ t) in
    rw
      (
        append_assoc (line_text x) (lines_text hs) (carriage_return ∷ t),
        line_starts x rest line,
        msg_hdr_piece x h e behind rest line (is_empty-append_cons (lines_text hs) _ t),
        msg_hdrs_piece hs fuel (record h { msg_hdrs = h.msg_hdrs ++ (x ∷ []) }) e behind t lines
            (omega arith),
      )
      (ap (λ (ms : List MsgField). next (at (record h { msg_hdrs = ms }) e (carriage_return ∷ t)))
        (append_assoc h.msg_hdrs (x ∷ []) hs))

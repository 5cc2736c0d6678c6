-- ===== src/MsgHdr/BodyLen.antt =====
-- The body length that `set_body_len` stores and `body_len` reads.
use ip_utils.Base.{
  ℕ, ◌%◌, ◌^◌, ◌<◌, min, ◌≡◌, refl, ◌≢◌, ◌⊎◌, inl, inr, true, false, ◌&&◌, ◌||◌, none, [], ◌∷◌,
  arith, ltb, leb, ◌==◌, if◌then◌else◌, Bytes, length, All, cstr, cstr-All, isspace, isdigit,
  span_taken, span_rest, AllKept, decimal, value, value-decimal, decimal-isdigit, decimal-ne-nil,
  same_name, same_name_iff, long_max, strtol,
}
use ip_utils.ErrorHandler.{ErrorHandler}
use ip_utils.Http.{find_field, content_length, msg_len, append_msg_hdr}
use ip_utils.Http.Headers.{find_field-concat}
use ip_utils.MsgHdr.{type_basic, type_http, body_len, set_body_len, MsgHdr}

digits-HasNoNul : (xs : Bytes) → AllKept isdigit xs → All (λ c. c ≢ 0) xs
unfolding isdigit
digits-HasNoNul [] h = tt
digits-HasNoNul (x ∷ xs) (hx, h) = (ground arith, digits-HasNoNul xs h)

taken_digits : (xs : Bytes) → AllKept isdigit xs → span_taken isdigit xs ≡ xs
unfolding span_taken
taken_digits [] h = refl
taken_digits (x ∷ xs) (hx, h) = ground (arith, taken_digits xs h)

strtol_digits :
    (xs : Bytes) → AllKept isdigit xs → 0 < length xs → strtol (cstr xs) ≡ min (value xs) long_max
unfolding strtol span_rest isspace
strtol_digits [] h some_digit = absurd (omega arith)
strtol_digits (x ∷ xs) (hx, h) some_digit =
    let digit : (leb b'0' x && leb x b'9') ≡ true = unfold isdigit in hx in
    let no_space : (x == b' ' || leb 9 x && leb x 13) ≡ false = ground arith in
    let no_minus : (x == b'-') ≡ false = ground arith in
    let no_plus : (x == b'+') ≡ false = ground arith in
    rw
      (
        cstr-All (x ∷ xs) (digits-HasNoNul (x ∷ xs) (hx, h)),
        no_space,
        no_minus,
        no_plus,
        taken_digits (x ∷ xs) (hx, h),
      )
      refl

strtol-decimal : (n : ℕ) → n < 2 ^ 31 → strtol (cstr (decimal n)) ≡ n
strtol-decimal n h =
    rw
      (
        strtol_digits (decimal n) (decimal-isdigit n) (decimal-ne-nil n),
        value-decimal n (omega arith),
      )
      (omega arith)

-- A message with no body length yet, of a kind that has one.
abbrev pub TakesBodyLen : MsgHdr → Type 0
TakesBodyLen m =
    (m.type ≡ type_basic)
    ⊎ ((m.type ≡ type_http) × (find_field content_length m.hdr.http.msg_hdrs ≡ none))

-- For a header of the BASIC kind, or one of the HTTP kind with no Content-Length yet, the length
-- that `set_body_len` stores, below 2 ^ 16 for the BASIC kind and below 2 ^ 31 for the HTTP kind,
-- is the one that `body_len` reads; no event is raised.
pub set_body_len-body_len :
    (m : MsgHdr) (e : ErrorHandler) (len : ℕ)
    → TakesBodyLen m
    → len < (if m.type == type_basic then 2 ^ 16 else 2 ^ 31)
    → (body_len (set_body_len m e len).0 ≡ len) × ((set_body_len m e len).1 ≡ e)
unfolding set_body_len body_len append_msg_hdr msg_len find_field
set_body_len-body_len m e len (inl basic) h =
    let is_basic : (m.type == type_basic) ≡ true = ground arith in
    let small : len < 2 ^ 16 = ground arith in rw (is_basic, is_basic) (omega arith, refl)
set_body_len-body_len m e len (inr (http, new)) h =
    let not_basic : (m.type == type_basic) ≡ false = ground arith in
    let is_http : (m.type == type_http) ≡ true = ground arith in
    let small : len < 2 ^ 31 = ground arith in
    let low : len % 2 ^ 32 ≡ len = omega arith in
    let positive : ltb len (2 ^ 31) ≡ true = ground arith in
    let field_name : same_name content_length content_length ≡ true =
      (same_name_iff content_length content_length).1 refl in
    rw
      (
        not_basic,
        is_http,
        new,
        not_basic,
        is_http,
        find_field-concat content_length m.hdr.http.msg_hdrs,
        new,
        field_name,
        low,
        positive,
      )
      (strtol-decimal len small, refl)

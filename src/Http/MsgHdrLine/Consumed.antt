-- ===== src/Http/MsgHdrLine/Consumed.antt =====
-- How many bytes `ParseMsgHdr` uses, and that its loop over the parameters ends.
use ip_utils.Http.MsgHdrLine.{
  ◌>>=◌, carriage_return, line_feed, more, field_while, skip_delimiter, in_name, in_key, in_value,
  is_blank, parse_param, parse_params, parse_crlf, parse_line, conclude, parse_msg_hdr, Read, got,
  short, bad,
}
use ip_utils.Base.{
  ℕ, zero, suc, ◌+◌, ◌≤◌, ◌<◌, ◌≡◌, refl, ap, ◌⊎◌, inl, inr, Bool, some, List, [], ◌∷◌, ◌++◌, arith,
  ◌==◌, if◌then◌else◌, Bool-cases, Bytes, length, isspace, head_byte, is_empty, span_rest,
  length-span_rest,
}
use ip_utils.ErrorHandler.{ErrorHandler}
use ip_utils.Http.{Parameter, MsgField, Http}

-- What is left behind a part is no longer than `n`.
abbrev Leaves {ℓ} : {A : Type ℓ} → ℕ → Read (A × Bytes) → Type 0
Leaves n (got p) = length p.1 ≤ n
Leaves n short = Unit
Leaves n (bad msg) = Unit

abbrev LeavesBytes : ℕ → Read Bytes → Type 0
LeavesBytes n (got rest) = length rest ≤ n
LeavesBytes n short = Unit
LeavesBytes n (bad msg) = Unit

bind-Leaves {ℓ κ} :
    {A : Type ℓ} {B : Type κ} (m : Read (A × Bytes)) (f : A × Bytes → Read (B × Bytes)) (n k : ℕ)
    → Leaves n m
    → ((p : A × Bytes) → length p.1 ≤ n → Leaves k (f p))
    → Leaves k (m >>= f)
bind-Leaves (got p) f n k h g = g p h
bind-Leaves short f n k h g = tt
bind-Leaves (bad msg) f n k h g = tt

bytes-Leaves {κ} :
    {B : Type κ} (m : Read Bytes) (f : Bytes → Read (B × Bytes)) (n k : ℕ)
    → LeavesBytes n m
    → ((rest : Bytes) → length rest ≤ n → Leaves k (f rest))
    → Leaves k (m >>= f)
bytes-Leaves (got p) f n k h g = g p h
bytes-Leaves short f n k h g = tt
bytes-Leaves (bad msg) f n k h g = tt

more-Leaves : (rest : Bytes) → LeavesBytes (length rest) (more rest)
more-Leaves [] = tt
more-Leaves (x ∷ rest) = omega arith

more_within : (rest : Bytes) (n : ℕ) → length rest ≤ n → LeavesBytes n (more rest)
more_within [] n h = tt
more_within (x ∷ rest) n h = h

field_while-Leaves :
    (keep : ℕ → Bool) (rest : Bytes) (n : ℕ) → length rest ≤ n → Leaves n (field_while keep rest)
unfolding field_while
field_while-Leaves keep rest n h = elim (Bool-cases (is_empty (span_rest keep rest))) [
  | inl end ↦ rw end tt
  | inr some_byte ↦ rw some_byte (omega (arith, length-span_rest keep rest))
]

-- Skipping a delimiter takes a byte.
skip_delimiter-Leaves :
    (rest : Bytes) (n : ℕ) → length rest ≤ suc n → LeavesBytes n (skip_delimiter rest)
unfolding skip_delimiter
skip_delimiter-Leaves [] n h = tt
skip_delimiter-Leaves (x ∷ []) n h = tt
skip_delimiter-Leaves (x ∷ (y ∷ rest)) n h =
    more_within (span_rest isspace (y ∷ rest)) n
      (omega (arith, length-span_rest isspace (y ∷ rest)))

parse_param-Leaves : (rest : Bytes) (n : ℕ) → length rest ≤ suc n → Leaves n (parse_param rest)
unfolding parse_param
parse_param-Leaves rest n h =
    bytes-Leaves (skip_delimiter rest) _ n n (skip_delimiter-Leaves rest n h) (λ at_key hk.
      bind-Leaves (field_while in_key at_key) _ n n (field_while-Leaves in_key at_key n hk) (λ p hp.
        bytes-Leaves (skip_delimiter p.1) _ n n (skip_delimiter-Leaves p.1 n (omega arith))
          (λ at_value hv.
            bind-Leaves (field_while in_value at_value) _ n n
              (field_while-Leaves in_value at_value n hv)
              (λ q hq.
                bytes-Leaves (more (span_rest is_blank q.1)) _ n n
                  (more_within _ n (omega (arith, length-span_rest is_blank q.1)))
                  (λ left hl. hl)))))

bind_same {ℓ κ} :
    {A : Type ℓ} {B : Type κ} (m : Read (A × Bytes)) (f g : A × Bytes → Read B) (n : ℕ)
    → Leaves n m
    → ((p : A × Bytes) → length p.1 ≤ n → f p ≡ g p)
    → (m >>= f) ≡ (m >>= g)
bind_same (got p) f g n h same = same p h
bind_same short f g n h same = refl
bind_same (bad msg) f g n h same = refl

-- The loop over the parameters ends: with a step for each byte left and one more it never runs out
-- of steps, so any larger number of steps gives the same result.
pub parse_params_fuel :
    (f g : ℕ) (rest : Bytes)
    → length rest < f
    → length rest < g
    → parse_params f rest ≡ parse_params g rest
unfolding parse_params parse_param skip_delimiter
parse_params_fuel zero g rest hf hg = absurd (omega arith)
parse_params_fuel (suc f) zero rest hf hg = absurd (omega arith)
parse_params_fuel (suc f) (suc g) [] hf hg = refl
parse_params_fuel (suc f) (suc g) (x ∷ rest) hf hg =
    ap
      (λ (m : Read (List Parameter × Bytes)).
        if x == carriage_return then got ([], x ∷ rest) else m)
      (bind_same (parse_param (x ∷ rest)) _ _ (length rest)
        (parse_param-Leaves (x ∷ rest) (length rest) (omega arith))
        (λ p hp.
          ap (λ (m : Read (List Parameter × Bytes)). m >>= (λ q. got (p.0 ∷ q.0, q.1)))
            (parse_params_fuel f g p.1 (omega arith) (omega arith))))

parse_params-Leaves :
    (fuel : ℕ) (rest : Bytes) (n : ℕ) → length rest ≤ n → Leaves n (parse_params fuel rest)
unfolding parse_params
parse_params-Leaves zero rest n h = tt
parse_params-Leaves (suc fuel) rest n h = elim (Bool-cases (head_byte rest == carriage_return)) [
  | inl end ↦ rw end h
  | inr more_params ↦ rw more_params (
      bind-Leaves (parse_param rest) _ n n (parse_param-Leaves rest n (omega arith)) (λ p hp.
        bind-Leaves (parse_params fuel p.1) _ n n (parse_params-Leaves fuel p.1 n hp) (λ q hq. hq)))
]

parse_crlf-Leaves :
    (len : ℕ) (behind rest : Bytes) (n : ℕ)
    → length rest ≤ suc n
    → LeavesBytes n (parse_crlf len behind rest)
unfolding parse_crlf
parse_crlf-Leaves len behind [] n h = tt
parse_crlf-Leaves len behind (x ∷ []) n h = tt
parse_crlf-Leaves len behind (x ∷ (y ∷ rest)) n h = elim (Bool-cases (y == line_feed)) [
  | inl feed ↦ rw feed (omega arith)
  | inr other ↦ rw other tt
]

parse_line-Leaves :
    (buf behind : Bytes) (n : ℕ) → length buf ≤ suc n → Leaves n (parse_line buf behind)
unfolding parse_line
parse_line-Leaves buf behind n h = elim (Bool-cases (isspace (head_byte buf))) [
  | inl space ↦ rw space tt
  | inr word ↦ rw word (
      bind-Leaves (field_while in_name buf) _ (suc n) n (field_while-Leaves in_name buf (suc n) h)
        (λ p hp.
          bytes-Leaves (skip_delimiter p.1) _ n n (skip_delimiter-Leaves p.1 n hp) (λ at_value hv.
            bind-Leaves (field_while in_value at_value) _ n n
              (field_while-Leaves in_value at_value n hv)
              (λ q hq.
                bind-Leaves (parse_params (length q.1 + 1) q.1) _ n n
                  (parse_params-Leaves (length q.1 + 1) q.1 n hq)
                  (λ r hr.
                    bytes-Leaves (parse_crlf (length buf) behind r.1) _ n n
                      (parse_crlf-Leaves (length buf) behind r.1 n (omega arith))
                      (λ rest hl. hl))))))
]

-- What a call of `ParseMsgHdr` may come to: no bytes used and the object as it was, or between one
-- byte and the whole buffer used, no event, and one header more at the end of the list.
abbrev pub Uses : Http → ErrorHandler → Bytes → Http × ErrorHandler × ℕ → Type 0
Uses h e buf (h', e', n) =
    ((n ≡ 0) × (h' ≡ h))
    ⊎ ((0 < n)
        × (n ≤ length buf)
        × (e' ≡ e)
        × ((f : MsgField) × (h' ≡ record h { msg_hdrs = h.msg_hdrs ++ (f ∷ []) })))

conclude-Uses :
    (h : Http) (e : ErrorHandler) (x : ℕ) (buf : Bytes) (m : Read (MsgField × Bytes))
    → Leaves (length buf) m
    → Uses h e (x ∷ buf) (conclude h e (length (x ∷ buf)) m)
conclude-Uses h e x buf (got (f, rest)) l = inr (omega arith, omega arith, refl, (f, refl))
conclude-Uses h e x buf short l = inl (refl, refl)
conclude-Uses h e x buf (bad msg) l = inl (refl, refl)

-- Whatever the buffer holds, `ParseMsgHdr` either reports no bytes used and leaves the object as it
-- was, or reports a count from one to the length of the buffer, raises no event and adds one header
-- at the end of the list.
pub parse_msg_hdr-Uses :
    (h : Http) (e : ErrorHandler) (buf behind : Bytes)
    → Uses h e buf (parse_msg_hdr h e (some buf) behind)
unfolding parse_msg_hdr
parse_msg_hdr-Uses h e [] behind = inl (refl, refl)
parse_msg_hdr-Uses h e (x ∷ buf) behind =
    conclude-Uses h e x buf (parse_line (x ∷ buf) behind)
      (parse_line-Leaves (x ∷ buf) behind (length buf) (omega arith))

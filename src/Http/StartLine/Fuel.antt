-- ===== src/Http/StartLine/Fuel.antt =====
-- The loop over the message headers ends.
use ip_utils.Base.{
  ℕ, zero, suc, ◌<◌, ◌≡◌, refl, ap, inl, inr, false, some, [], ◌∷◌, arith, ◌==◌, if◌then◌else◌,
  Bool-cases, Bytes, length, drop, length-drop, ◌>>=◌, head_byte, is_empty, Step, next, halt,
}
use ip_utils.Http.{Http}
use ip_utils.Http.StartLine.{after_msg_hdr, parse_msg_hdrs, HdrWalk}
use ip_utils.Http.MsgHdrLine.{carriage_return, parse_msg_hdr}
use ip_utils.ErrorHandler.{ErrorHandler}

-- A step that goes on leaves less than `n` bytes.
abbrev Goes : ℕ → Step HdrWalk → Type 0
Goes n (next w) = length w.rest < n
Goes n (halt w) = Unit

suc_not_zero : (m : ℕ) → (suc m == 0) ≡ false
suc_not_zero m = ground arith

-- A round that goes on has used a byte.
after_msg_hdr-Goes :
    (rest : Bytes) (r : Http × ErrorHandler × ℕ) → Goes (length rest) (after_msg_hdr rest r)
after_msg_hdr-Goes rest (h, e, zero) = tt
after_msg_hdr-Goes [] (h, e, suc m) = rw (suc_not_zero m) tt
after_msg_hdr-Goes (x ∷ rest) (h, e, suc m) = elim (Bool-cases (is_empty (drop m rest))) [
  | inl end ↦ rw (suc_not_zero m, end) tt
  | inr some_left ↦ rw (suc_not_zero m, some_left) (omega (arith, length-drop m rest))
]

bind-Goes :
    (m : Step HdrWalk) (f g : HdrWalk → Step HdrWalk) (n : ℕ)
    → Goes n m
    → ((w : HdrWalk) → length w.rest < n → f w ≡ g w)
    → (m >>= f) ≡ (m >>= g)
bind-Goes (next w) f g n h same = same w h
bind-Goes (halt w) f g n h same = refl

-- The loop over the message headers ends: with a step for each byte left and one more it never
-- runs out of steps, so any larger number of steps gives the same result.
pub parse_msg_hdrs_fuel :
    (f g : ℕ) (behind : Bytes) (w : HdrWalk)
    → length w.rest < f
    → length w.rest < g
    → parse_msg_hdrs f behind w ≡ parse_msg_hdrs g behind w
unfolding parse_msg_hdrs
parse_msg_hdrs_fuel zero g behind w hf hg = absurd (omega arith)
parse_msg_hdrs_fuel (suc f) zero behind w hf hg = absurd (omega arith)
parse_msg_hdrs_fuel (suc f) (suc g) behind w hf hg =
    ap (λ (m : Step HdrWalk). if head_byte w.rest == carriage_return then next w else m)
      (bind-Goes (after_msg_hdr w.rest (parse_msg_hdr w.http w.error (some w.rest) behind))
        (parse_msg_hdrs f behind) (parse_msg_hdrs g behind) (length w.rest)
        (after_msg_hdr-Goes w.rest (parse_msg_hdr w.http w.error (some w.rest) behind))
        (λ v shorter. parse_msg_hdrs_fuel f g behind v (omega arith) (omega arith)))

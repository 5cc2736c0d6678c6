-- ===== src/Http/StartLine/Keeps.antt =====
-- The parts of a start line leave the message headers as they were.
use ip_utils.Base.{
  ℕ, ◌≡◌, refl, ◌∙◌, Bool, true, false, ◌&&◌, List, [], ltb, ◌==◌, if◌then◌else◌, Bytes, length,
  drop, ◌>>=◌, isdigit, head_byte, tail, is_empty, span_rest, Step, next, halt, strncasecmp_eq,
}
use ip_utils.Http.{MsgField, Http}
use ip_utils.Http.StartLine.{
  skip_byte, expect, parse_number, set_major, set_minor, known_version, check_version, http_slash,
  skip_http_slash, parse_version, clearing, HdrWalk,
}

-- However a step ends, the message headers are `hs`.
abbrev pub Keeps : List MsgField → Step HdrWalk → Type 0
Keeps hs (next w) = w.http.msg_hdrs ≡ hs
Keeps hs (halt w) = w.http.msg_hdrs ≡ hs

abbrev pub KeepsIn : List MsgField → (HdrWalk → Step HdrWalk) → Type 0
KeepsIn hs f = (w : HdrWalk) → w.http.msg_hdrs ≡ hs → Keeps hs (f w)

pub bind-Keeps :
    (hs : List MsgField) (m : Step HdrWalk) (f : HdrWalk → Step HdrWalk)
    → Keeps hs m
    → KeepsIn hs f
    → Keeps hs (m >>= f)
bind-Keeps hs (next w) f h k = k w h
bind-Keeps hs (halt w) f h k = h

pub if-Keeps :
    (hs : List MsgField) (test : Bool) (a b : Step HdrWalk)
    → Keeps hs a
    → Keeps hs b
    → Keeps hs (if test then a else b)
if-Keeps hs true a b ha hb = ha
if-Keeps hs false a b ha hb = hb

pub skip_byte-Keeps : (hs : List MsgField) → KeepsIn hs skip_byte
unfolding skip_byte
skip_byte-Keeps hs w h = if-Keeps hs (is_empty (tail w.rest)) _ _ h h

pub expect-Keeps :
    (hs : List MsgField) (len : ℕ) (behind text : Bytes) (c : ℕ)
    → KeepsIn hs (expect len behind text c)
unfolding expect
expect-Keeps hs len behind text c w h =
    if-Keeps hs (head_byte w.rest == c) _ _ (skip_byte-Keeps hs w h) h

pub parse_number-Keeps :
    (hs : List MsgField) (set : ℕ → Http → Http)
    → ((n : ℕ) (h : Http) → (set n h).msg_hdrs ≡ h.msg_hdrs)
    → KeepsIn hs (parse_number set)
unfolding parse_number
parse_number-Keeps hs set same w h =
    if-Keeps hs (is_empty (span_rest isdigit w.rest)) _ _ h (same _ w.http ∙ h)

skip_http_slash-Keeps : (hs : List MsgField) → KeepsIn hs skip_http_slash
unfolding skip_http_slash
skip_http_slash-Keeps hs w h =
    if-Keeps hs
      (ltb (length http_slash) (length w.rest)
        && strncasecmp_eq (length http_slash) http_slash w.rest)
      (next (record w { rest = drop (length http_slash) w.rest })) (halt w) h h

check_version-Keeps : (hs : List MsgField) (text : Bytes) → KeepsIn hs (check_version text)
unfolding check_version
check_version-Keeps hs text w h = if-Keeps hs (known_version w.http) _ _ h h

pub parse_version-Keeps :
    (hs : List MsgField) (len : ℕ) (behind dot_text text : Bytes)
    → KeepsIn hs (parse_version len behind dot_text text)
unfolding parse_version
parse_version-Keeps hs len behind dot_text text w h =
    let slash = skip_http_slash-Keeps hs w h in
    let major =
      bind-Keeps hs _ (parse_number set_major) slash
        (parse_number-Keeps hs set_major (λ n g. refl)) in
    let dot =
      bind-Keeps hs _ (expect len behind dot_text b'.') major
        (expect-Keeps hs len behind dot_text b'.') in
    let minor =
      bind-Keeps hs _ (parse_number set_minor) dot
        (parse_number-Keeps hs set_minor (λ n g. refl)) in
    bind-Keeps hs _ (check_version text) minor (check_version-Keeps hs text)

-- A step that stops has no message headers left.
abbrev pub HaltsClear : Step HdrWalk → Type 0
HaltsClear (next w) = Unit
HaltsClear (halt w) = w.http.msg_hdrs ≡ []

pub clearing-HaltsClear : (m : Step HdrWalk) → HaltsClear (clearing m)
clearing-HaltsClear (next w) = tt
clearing-HaltsClear (halt w) = refl

pub bind-HaltsClear :
    (m : Step HdrWalk) (f : HdrWalk → Step HdrWalk)
    → Keeps [] m
    → ((w : HdrWalk) → HaltsClear (f w))
    → HaltsClear (m >>= f)
bind-HaltsClear (next w) f h k = k w
bind-HaltsClear (halt w) f h k = h

-- ===== src/Http/Response/Cleared.antt =====
-- A response that is not accepted leaves no message headers behind.
use ip_utils.Base.{
  ℕ, ◌-◌, ◌≡◌, refl, inl, inr, Bool, Option, none, some, List, [], ◌++◌, Bool-cases, some-none,
  Bytes, codes, length, take, drop, is_empty, span_rest, Step, next, halt,
}
use ip_utils.Http.{MsgField, Http}
use ip_utils.Http.MsgHdrLine.{carriage_return, line_feed}
use ip_utils.Http.StartLine.{expect, parse_number, set_status_code, skip_leading_space, HdrWalk}
use ip_utils.Http.StartLine.Keeps.{
  KeepsIn, bind-Keeps, if-Keeps, expect-Keeps, parse_number-Keeps, parse_version-Keeps, HaltsClear,
  clearing-HaltsClear, bind-HaltsClear,
}
use ip_utils.Http.Request.{expected_return, expected_feed}
use ip_utils.Http.Chunked.{parse_chunked_msg_body, ChunkBuf}
use ip_utils.Http.Response.{
  response_text, not_return, skip_phrase, status_line, response_hdrs, is_chunked, after_chunks,
  response_body, response_end, parse_response_hdr, Parsed,
}
use ip_utils.ErrorHandler.{ErrorHandler}

skip_phrase-Keeps : (hs : List MsgField) → KeepsIn hs skip_phrase
unfolding skip_phrase
skip_phrase-Keeps hs w h = if-Keeps hs (is_empty (span_rest not_return w.rest)) _ _ h h

status_line-Keeps :
    (hs : List MsgField) (len : ℕ) (behind : Bytes) → KeepsIn hs (status_line len behind)
unfolding status_line
status_line-Keeps hs len behind w h =
    let sp = response_text (codes "expected SP, got char: ") in
    let dot = response_text (codes "expected '.', got char: ") in
    let unknown = response_text (codes "received unknown HTTP header version: ") in
    let at_sp = expect len behind sp b' ' in
    let skips = expect-Keeps hs len behind sp b' ' in
    let start = bind-Keeps hs _ at_sp (parse_version-Keeps hs len behind dot unknown w h) skips in
    let code =
      bind-Keeps hs _ (parse_number set_status_code) start
        (parse_number-Keeps hs set_status_code (λ n g. refl)) in
    bind-Keeps hs _ _
      (bind-Keeps hs _ _
        (bind-Keeps hs _ skip_phrase (bind-Keeps hs _ at_sp code skips) (skip_phrase-Keeps hs))
        (expect-Keeps hs len behind (response_text expected_return) carriage_return))
      (expect-Keeps hs len behind (response_text expected_feed) line_feed)

abbrev ClearedParsed : Parsed → Type 0
ClearedParsed p = p.used ≡ none → p.http.msg_hdrs ≡ []

after_chunks-Cleared :
    (used : ℕ) (w : HdrWalk) (r : ChunkBuf × ErrorHandler × Option ℕ)
    → ClearedParsed (after_chunks used w r)
after_chunks-Cleared used w (b, e, some m) = λ no. absurd (some-none no)
after_chunks-Cleared used w (b, e, none) = λ no. refl

response_body-Cleared :
    (realloc : ℕ → Bool) (len : ℕ) (behind : Bytes) (b : ChunkBuf) (w : HdrWalk)
    → ClearedParsed (response_body realloc len behind b w)
unfolding response_body
response_body-Cleared realloc len behind b w =
    let used = len - length w.rest in
    elim (Bool-cases (is_chunked w.http)) [
      | inl chunked ↦ elim (Bool-cases (is_empty w.rest)) [
        | inl end ↦ rw (chunked, end) (λ no. refl)
        | inr body ↦
            rw (chunked, body)
              (after_chunks-Cleared used w (
                parse_chunked_msg_body realloc w.error (some (take used (w.rest ++ behind)))
                  (drop used (w.rest ++ behind)) b))
      ]
      | inr whole ↦ rw whole (λ no. absurd (some-none no))
    ]

response_end-Cleared :
    (realloc : ℕ → Bool) (len : ℕ) (behind : Bytes) (b : ChunkBuf) (m : Step HdrWalk)
    → HaltsClear m
    → ClearedParsed (response_end realloc len behind b m)
response_end-Cleared realloc len behind b (next w) h = response_body-Cleared realloc len behind b _
response_end-Cleared realloc len behind b (halt w) h = λ no. h

-- When a call of `ParseResponseHdr` on an object with no message headers returns false, whatever
-- the buffer holds, and NULL too, the object has no message headers again; so it is when the header
-- is whole and its chunked body is not.
pub parse_response_hdr-cleared :
    (realloc : ℕ → Bool) (h : Http) (e : ErrorHandler) (buf : Option Bytes) (behind : Bytes)
    (b : ChunkBuf)
    → h.msg_hdrs ≡ []
    → (parse_response_hdr realloc h e buf behind b).used ≡ none
    → (parse_response_hdr realloc h e buf behind b).http.msg_hdrs ≡ []
unfolding parse_response_hdr response_hdrs
parse_response_hdr-cleared realloc h e none behind b clear not_used = clear
parse_response_hdr-cleared realloc h e (some buf) behind b clear not_used =
    response_end-Cleared realloc (length buf) behind b _
      (bind-HaltsClear
        (status_line (length buf) behind
          (skip_leading_space (record { http = h; error = e; rest = buf })))
        (response_hdrs (length buf) behind)
        (status_line-Keeps [] (length buf) behind
          (skip_leading_space (record { http = h; error = e; rest = buf })) clear)
        (λ w. clearing-HaltsClear _))
      not_used

-- ===== src/Session/Streaming.antt =====
-- What the incoming side does to the bytes that wait: `ShiftRbuf`, and `StreamIncomingMsg`, which
-- moves them to a file.
use ip_utils.Base.{
  ℕ, zero, suc, ◌+◌, ◌-◌, ◌≤◌, ◌<◌, min, ◌≡◌, refl, sym, ap, ◌∙◌, inl, inr, true, false, none, some,
  [], ◌∷◌, ◌++◌, arith, ltb, leb, if◌then◌else◌, Bool-cases, Bytes, length, take, drop, length-take,
  length-drop, take-append-drop, take-take,
}
use ip_utils.ErrorHandler.{ErrorHandler}
use ip_utils.Session.Queue.Buffer.{drop-take, copy_in_to}
use ip_utils.Session.{move, size_sub, Os, Session}
use ip_utils.Session.Incoming.{shift_rbuf, streamed, amount, stream_incoming_msg}

gap_text :
    (block : Bytes) (used n o : ℕ)
    → o + n ≤ used
    → used ≤ length block
    → take (used - n) (move block o (o + n) (size_sub used (n + o)))
      ≡ take o (take used block) ++ drop (o + n) (take used block)
gap_text block used n o hn hu =
    let no_wrap : ltb used (n + o) ≡ false = ground arith in
    let kept = take (used - (n + o)) (drop (o + n) block) in
    let lk : length kept ≡ used - (n + o) =
      omega (arith, length-take (used - (n + o)) (drop (o + n) block), length-drop (o + n) block) in
    let whole : o + n + (used - (n + o)) ≡ used = omega arith in
    rw no_wrap (
      copy_in_to block kept o (used - n) (omega arith) (omega arith)
      ∙ ap (λ (xs : Bytes). xs ++ kept) (sym (take-take o used block (omega arith)))
      ∙ ap (◌++◌ (take o (take used block))) (
          sym (drop-take (o + n) (used - (n + o)) block)
          ∙ ap (λ (k : ℕ). drop (o + n) (take k block)) whole))

drop_past : (n : ℕ) (xs : Bytes) → length xs ≤ n → drop n xs ≡ []
drop_past zero [] h = refl
drop_past zero (x ∷ xs) h = absurd (omega arith)
drop_past (suc n) [] h = refl
drop_past (suc n) (x ∷ xs) h = drop_past n xs (omega arith)

module _ {File : Type 0} where
  -- The bytes that wait in the incoming buffer.
  abbrev pub waiting : Session File → Bytes
  waiting s = elim s.rbuf [ none ↦ [] | some block ↦ take s.rbuf_len block ]

  -- For an offset within the bytes that wait, `ShiftRbuf(len, offset)` removes `len` of the
  -- bytes behind the first `offset`, or as many as there are, and raises no event.
  pub shift_rbuf_lem :
      (s : Session File) (e : ErrorHandler) (block : Bytes) (len offset : ℕ)
      → s.rbuf ≡ some block
      → s.rbuf_len ≤ length block
      → offset ≤ s.rbuf_len
      → let r = shift_rbuf s e len offset in
        (waiting r.0 ≡ take offset (waiting s) ++ drop (offset + len) (waiting s)) × (r.1 ≡ e)
  unfolding shift_rbuf
  shift_rbuf_lem s e block len offset eb hb ho =
      let back : take offset (take s.rbuf_len block) ++ drop (offset + len) (take s.rbuf_len block)
          ≡ take offset (waiting s) ++ drop (offset + len) (waiting s) =
        ap (λ (xs : Bytes). take offset xs ++ drop (offset + len) xs) (rw eb refl) in
      elim (Bool-cases (ltb s.rbuf_len (len + offset))) [
        | inl more ↦
            let past : s.rbuf_len < len + offset = ground arith in
            let waits : length (take s.rbuf_len block) ≤ s.rbuf_len =
              omega (arith, length-take s.rbuf_len block) in
            let new_len = s.rbuf_len - offset in
            let gone : drop (offset + new_len) (take s.rbuf_len block) ≡ [] =
              drop_past (offset + new_len) (take s.rbuf_len block) (omega arith) in
            let none_left : drop (offset + len) (take s.rbuf_len block) ≡ [] =
              drop_past (offset + len) (take s.rbuf_len block) (omega arith) in
            let res : shift_rbuf s e len offset ≡ (
              record s {
                rbuf =
                    some (
                      move block offset (offset + new_len)
                        (size_sub s.rbuf_len (new_len + offset)));
                rbuf_len = s.rbuf_len - new_len;
              },
              e,
            ) =
              simp (shift_rbuf, eb, more) in
            rw res (
              gap_text block s.rbuf_len new_len offset (omega arith) hb
                  ∙ ap (◌++◌ (take offset (take s.rbuf_len block))) (gone ∙ sym none_left)
                  ∙ back,
              refl,
            )
        | inr enough ↦
            let fits : offset + len ≤ s.rbuf_len = ground arith in
            let res : shift_rbuf s e len offset ≡ (
              record s {
                rbuf = some (move block offset (offset + len) (size_sub s.rbuf_len (len + offset)));
                rbuf_len = s.rbuf_len - len;
              },
              e,
            ) =
              simp (shift_rbuf, eb, enough) in
            rw res (gap_text block s.rbuf_len len offset fits hb ∙ back, refl)
      ]

  shift_rbuf_front :
      (s : Session File) (e : ErrorHandler) (block : Bytes) (n : ℕ)
      → s.rbuf ≡ some block
      → n ≤ s.rbuf_len
      → shift_rbuf s e n 0 ≡ (
        record s {
          rbuf = some (move block 0 (0 + n) (size_sub s.rbuf_len (n + 0)));
          rbuf_len = s.rbuf_len - n;
        },
        e,
      )
  unfolding shift_rbuf
  shift_rbuf_front s e block n eb h =
      let enough : ltb s.rbuf_len (n + 0) ≡ false = ground arith in simp (shift_rbuf, eb, enough)

  -- `StreamIncomingMsg` with an open file, an initialized message and an offset not past its
  -- body, when the file takes `n` of the bytes that it is offered: these and the ones that wait
  -- behind the call are the ones that waited before it, the offset moves by `n` and not past
  -- the body, no event is raised, and 0 is returned exactly when the body is complete.
  pub stream_incoming_msg_lem :
      (os : Os File) (s : Session File) (e : ErrorHandler) (block : Bytes) (f : File) (n : ℕ)
      → s.rbuf ≡ some block
      → s.rbuf_len ≤ length block
      → os.is_open s.rfile ≡ true
      → s.rpending.initialized ≡ true
      → s.rpending.file_offset ≤ s.rpending.body_len
      → os.write s.rfile (take (amount os s) block) ≡ some (f, n)
      → n ≤ amount os s
      → let r = stream_incoming_msg os s e in
        (take n block ++ waiting r.0 ≡ waiting s)
        × (r.0.rpending.file_offset ≡ s.rpending.file_offset + n)
        × (s.rpending.file_offset + n ≤ s.rpending.body_len)
        × (r.1 ≡ e)
        × (r.2 ≡ (if leb s.rpending.body_len (s.rpending.file_offset + n) then 0 else 1))
  unfolding stream_incoming_msg
  stream_incoming_msg_lem os s e block f n eb hb opened ready ho wrote hn =
      let forward : ltb s.rpending.body_len s.rpending.file_offset ≡ false = ground arith in
      let count : amount os s ≡ min (s.rpending.body_len - s.rpending.file_offset) s.rbuf_len =
        rw forward refl in
      let part : n ≤ min (s.rpending.body_len - s.rpending.file_offset) s.rbuf_len =
        omega (arith, count) in
      let res : stream_incoming_msg os s e ≡ streamed os s e f n =
        simp (stream_incoming_msg, eb, opened, ready, wrote) in
      let moved = record s {
        rfile = f;
        rpending = record s.rpending { file_offset = s.rpending.file_offset + n };
      } in
      let shifted = shift_rbuf_front moved e block n eb (omega arith) in
      let drop_n : drop (0 + n) (take s.rbuf_len block) ≡ drop n (take s.rbuf_len block) =
        ap (λ (k : ℕ). drop k (take s.rbuf_len block)) (omega arith) in
      let joined : take n block
            ++ take (s.rbuf_len - n) (move block 0 (0 + n) (size_sub s.rbuf_len (n + 0)))
          ≡ waiting s =
        ap (◌++◌ (take n block)) (gap_text block s.rbuf_len n 0 (omega arith) hb ∙ drop_n)
        ∙ ap (λ (xs : Bytes). xs ++ drop n (take s.rbuf_len block))
            (sym (take-take n s.rbuf_len block (omega arith)))
        ∙ take-append-drop n (take s.rbuf_len block)
        ∙ rw eb refl in
      elim (Bool-cases (leb s.rpending.body_len (s.rpending.file_offset + n))) [
        | inl complete ↦ rw (res, shifted, complete) (joined, refl, omega arith, refl, refl)
        | inr partial ↦ rw (res, shifted, partial) (joined, refl, omega arith, refl, refl)
      ]

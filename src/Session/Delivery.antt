-- ===== src/Session/Delivery.antt =====
-- What repeated calls of `Write` give to the connection for a message in the buffer.
use ip_utils.Base.{
  ℕ, ◌+◌, ◌-◌, ◌≤◌, ◌≡◌, refl, sym, ap, ◌∙◌, inl, inr, true, false, false≢true, Option, some, List,
  [], ◌∷◌, ◌++◌, arith, ltb, Bool-cases, Option-cases, Bytes, length, take, drop, length-take,
  length-drop, take_all,
}
use ip_utils.ErrorHandler.{init, append_msg, ErrorHandler}
use ip_utils.Session.{
  slice, size_sub, is_sent, reset_wbuf, is_outgoing_msg_sent, Storage, use_mem, use_disc, MsgInfo,
  Os, Session,
}
use ip_utils.Session.Queue.{extent, footprint, total, IsSound}
use ip_utils.Session.Write.{advanced, write_mem, write_front, write, Sent}
use ip_utils.Session.Queue.Buffer.{drop-take, drop-drop, take_two}
use mathlib.Core.Option.{some-injective}
use ip_utils.ErrorHandler
use ip_utils.ErrorHandler.{ErrorHandler, append_msg}

-- The bytes of a message that is in the buffer.
abbrev pub text : Bytes → MsgInfo → Bytes
text block m = take (m.hdr_len + m.body_len) block

pub slice_part :
    (block : Bytes) (m : MsgInfo)
    → m.buf_offset ≤ m.hdr_len + m.body_len
    → slice block m.buf_offset (size_sub (m.hdr_len + m.body_len) m.buf_offset)
      ≡ drop m.buf_offset (text block m)
slice_part block m h =
    let no_wrap : ltb (m.hdr_len + m.body_len) m.buf_offset ≡ false = ground arith in
    let whole : m.buf_offset + (m.hdr_len + m.body_len - m.buf_offset) ≡ m.hdr_len + m.body_len =
      omega arith in
    rw no_wrap (
      sym (drop-take m.buf_offset (m.hdr_len + m.body_len - m.buf_offset) block)
      ∙ ap (λ (k : ℕ). drop m.buf_offset (take k block)) whole)

append_msg-event : (e : ErrorHandler) (m : Option Bytes) → (append_msg e m).event_flag ≡ true
unfolding append_msg
append_msg-event e m = ground arith

-- A connection that takes no more bytes than it is offered.
abbrev pub TakesOffered : {File : Type 0} → Os File → Type 0
TakesOffered os = (e : ErrorHandler) (bs : Bytes) → (os.ssl_write e bs).1 ≤ length bs

-- A run of calls that raise no event, with the bytes that they send.
pub data Writes (File : Type 0) : Session File → Bytes → Session File → Type 0 where
  done : {s : Session File} → Writes File s [] s
  call :
      {s u : Session File} {more : Bytes} (os : Os File) (e : ErrorHandler) (r : Sent File)
      → TakesOffered os
      → os.is_connected ≡ true
      → write os s e ≡ some r
      → r.error.event_flag ≡ false
      → Writes File r.session more u
      → Writes File s (r.wire ++ more) u

module _ {File : Type 0} where
  reset_wbuf-event :
      (s : Session File) (e : ErrorHandler)
      → e.event_flag ≡ true
      → (reset_wbuf s e).1.event_flag ≡ true
  unfolding reset_wbuf ErrorHandler.init
  reset_wbuf-event s e h = elim (Option-cases s.wbuf) [
    | inl null ↦ rw (reset_wbuf, null) refl
    | inr (block, at) ↦ rw (reset_wbuf, at) h
  ]

  dropped-event :
      (s : Session File) (e : ErrorHandler) (msg : Option Bytes)
      → (reset_wbuf s (append_msg e msg)).1.event_flag ≡ true
  dropped-event s e msg = reset_wbuf-event s (append_msg e msg) (append_msg-event e msg)

  -- One call without an event.
  write_mem_lem :
      (os : Os File) (s : Session File) (e : ErrorHandler) (block : Bytes) (m : MsgInfo)
      (ms : List MsgInfo)
      → TakesOffered os
      → m.buf_offset ≤ m.hdr_len + m.body_len
      → m.hdr_len + m.body_len ≤ length block
      → (write_mem os s e block m ms).error.event_flag ≡ false
      → (n : ℕ) × (n ≤ m.hdr_len + m.body_len - m.buf_offset)
        × ((write_mem os s e block m ms).session ≡ advanced os s m n ms)
        × ((write_mem os s e block m ms).wire ≡ take n (drop m.buf_offset (text block m)))
  unfolding write_mem
  write_mem_lem os s e block m ms takes h hb ok =
      let offered = slice block m.buf_offset (size_sub (m.hdr_len + m.body_len) m.buf_offset) in
      let r = os.ssl_write e offered in
      elim (Bool-cases r.0.event_flag) [
        | inl failed ↦
            let flag : (write_mem os s e block m ms).error.event_flag ≡ true =
              rw failed (dropped-event s _ _) in
            absurd (false≢true (sym ok ∙ flag))
        | inr fine ↦
            let part = slice_part block m h in
            let len : length offered ≡ m.hdr_len + m.body_len - m.buf_offset =
              ap length part
              ∙ omega (
                arith,
                length-drop m.buf_offset (text block m),
                length-take (m.hdr_len + m.body_len) block,
              ) in
            (r.1, omega (arith, takes e offered, len), rw fine refl, rw fine (ap (take r.1) part))
      ]

  front_mem :
      (os : Os File) (storage : Storage) (s : Session File) (e : ErrorHandler) (block : Bytes)
      (m : MsgInfo) (ms : List MsgInfo)
      → storage ≡ use_mem
      → write_front os storage s e block m ms ≡ some (write_mem os s e block m ms)
  unfolding write_front
  front_mem os use_mem s e block m ms st = refl
  front_mem os use_disc s e block m ms st = cc

  pub write_first :
      (os : Os File) (s : Session File) (e : ErrorHandler) (block : Bytes) (m : MsgInfo)
      (ms : List MsgInfo)
      → s.wbuf ≡ some block
      → s.wpending ≡ m ∷ ms
      → m.storage ≡ use_mem
      → os.is_connected ≡ true
      → write os s e ≡ some (write_mem os s e block m ms)
  unfolding write
  write_first os s e block m ms eb ew st conn =
      let at : write os s e ≡ write_front os m.storage s e block m ms =
        simp (write, eb, ew, conn) in
      at ∙ front_mem os m.storage s e block m ms st

  -- What a run does to a message in the buffer that is the first of the queue: it moves the offset,
  -- and sends the bytes between the two offsets.
  writes_lem :
      {s t : Session File} {wire : Bytes} (block : Bytes) (m : MsgInfo) (ms : List MsgInfo)
      → Writes File s wire t
      → s.wbuf ≡ some block
      → s.wpending ≡ m ∷ ms
      → m.storage ≡ use_mem
      → m.hdr_len + m.body_len ≤ length block
      → m.buf_offset ≤ m.hdr_len + m.body_len
      → (n : ℕ) × (m.buf_offset + n ≤ m.hdr_len + m.body_len)
        × (t.wpending ≡ record m { buf_offset = m.buf_offset + n } ∷ ms)
        × (wire ≡ take n (drop m.buf_offset (text block m)))
  writes_lem block m ms done eb ew st hb ho =
      (0, omega arith, ew ∙ ap (λ (k : ℕ). record m { buf_offset = k } ∷ ms) (omega arith), refl)
  writes_lem {s} {t} block m ms (call {more = more} os e r takes conn eq ok run) eb ew st hb ho =
      let same : r ≡ write_mem os s e block m ms =
        some-injective r _ (sym eq ∙ write_first os s e block m ms eb ew st conn) in
      let (n, small, to, sent) =
        write_mem_lem os s e block m ms takes ho hb
          (sym (ap (λ (x : Sent File). x.error.event_flag) same) ∙ ok) in
      let moved : r.session ≡ advanced os s m n ms = ap (λ (x : Sent File). x.session) same ∙ to in
      let (k, short, after, rest) =
        writes_lem block (record m { buf_offset = m.buf_offset + n }) ms run
          (ap (λ (x : Session File). x.wbuf) moved ∙ eb)
          (ap (λ (x : Session File). x.wpending) moved) st hb (omega arith) in
      (
        n + k,
        omega arith,
        after ∙ ap (λ (o : ℕ). record m { buf_offset = o } ∷ ms) (omega arith),
        ap (λ (xs : Bytes). xs ++ more) (ap (λ (x : Sent File). x.wire) same ∙ sent)
            ∙ ap (◌++◌ (take n (drop m.buf_offset (text block m))))
                (rest ∙ ap (take k) (drop-drop m.buf_offset n (text block m)))
            ∙ take_two n k (drop m.buf_offset (text block m)),
      )

  -- The first message of a sound session, with its body in memory, lies within the block.
  pub front_fits :
      (s : Session File) (m : MsgInfo) (ms : List MsgInfo) (w : IsSound s)
      → s.wpending ≡ m ∷ ms
      → m.storage ≡ use_mem
      → m.hdr_len + m.body_len ≤ length w.block
  unfolding total
  front_fits s m ms w ew st =
      let foot : footprint m ≡ m.hdr_len + m.body_len =
        ap (λ (x : Storage). extent x m.hdr_len m.body_len) st in
      let sum : footprint m + total ms ≡ s.wbuf_len = sym (ap total ew) ∙ w.used in
      omega (arith, w.fits, w.size)

  -- The first message of a sound session has its header and body in the buffer and nothing of
  -- it is sent: when calls of `Write` that raise no event, on a connection that takes any part
  -- of what it is offered but no more, have run until `IsOutgoingMsgSent`, they have given the
  -- connection the bytes of the message, each once and in order.
  pub Writes-sent :
      {t : Session File} {wire : Bytes} (s : Session File) (m : MsgInfo) (ms : List MsgInfo)
      (w : IsSound s)
      → s.wpending ≡ m ∷ ms
      → m.storage ≡ use_mem
      → m.buf_offset ≡ 0
      → m.file_offset ≡ 0
      → Writes File s wire t
      → is_outgoing_msg_sent t ≡ true
      → wire ≡ text w.block m
  unfolding is_outgoing_msg_sent
  Writes-sent {t} s m ms w ew st start no_file run sent =
      let size = front_fits s m ms w ew st in
      let (n, small, after, wire) =
        writes_lem w.block m ms run w.allocated ew st size (omega arith) in
      let at : is_outgoing_msg_sent t ≡ is_sent (record m { buf_offset = m.buf_offset + n }) =
        simp (is_outgoing_msg_sent, after) in
      let full : is_sent (record m { buf_offset = m.buf_offset + n }) ≡ true = sym at ∙ sent in
      wire
      ∙ ap (λ (o : ℕ). take n (drop o (text w.block m))) start
      ∙ take_all n (text w.block m) (ground (arith, length-take (m.hdr_len + m.body_len) w.block))

-- ===== src/Session/Progress.antt =====
-- TCPSession.cc, Write: a caller that goes on calling it until the message is out.
use ip_utils.Base.{
  ℕ, zero, suc, ◌+◌, ◌-◌, ◌≤◌, ◌<◌, ◌≡◌, refl, ap, ◌∙◌, inl, inr, true, false, Option, none, some,
  List, [], ◌∷◌, ◌++◌, arith, if◌then◌else◌, Bool-cases, Bytes, length, length-take, length-drop,
}
use ip_utils.Session.{slice, size_sub, is_sent, is_outgoing_msg_sent, use_mem, MsgInfo, Os, Session}
use ip_utils.Session.Write.{advanced, write_mem, write, Sent}
use ip_utils.Session.Delivery.{
  text, slice_part, TakesOffered, write_first, front_fits, Writes-sent, Writes, done, call,
}
use ip_utils.Session.Queue.{IsSound}
use ip_utils.ErrorHandler.{ErrorHandler}

-- A connection that takes some of what it is offered, and raises no event.
pub record Flows {File : Type 0} (os : Os File) : Type 0 where
  pub connected : os.is_connected ≡ true
  pub takes : TakesOffered os
  pub some_taken : (e : ErrorHandler) (bs : Bytes) → 0 < length bs → 0 < (os.ssl_write e bs).1
  pub quiet :
      (e : ErrorHandler) (bs : Bytes)
      → e.event_flag ≡ false
      → (os.ssl_write e bs).0.event_flag ≡ false

module _ {File : Type 0} (os : Os File) (flows : Flows os) where
  -- One call moves the offset by a byte at least.
  write_mem-moves :
      (s : Session File) (e : ErrorHandler) (block : Bytes) (m : MsgInfo) (ms : List MsgInfo)
      → e.event_flag ≡ false
      → m.buf_offset < m.hdr_len + m.body_len
      → m.hdr_len + m.body_len ≤ length block
      → ((write_mem os s e block m ms).error.event_flag ≡ false)
        × (n : ℕ) × (0 < n)
        × (n ≤ m.hdr_len + m.body_len - m.buf_offset)
        × ((write_mem os s e block m ms).session ≡ advanced os s m n ms)
  unfolding write_mem
  write_mem-moves s e block m ms no_event h hb =
      let offered = slice block m.buf_offset (size_sub (m.hdr_len + m.body_len) m.buf_offset) in
      let len : length offered ≡ m.hdr_len + m.body_len - m.buf_offset =
        ap length (slice_part block m (omega arith))
        ∙ omega (
          arith,
          length-drop m.buf_offset (text block m),
          length-take (m.hdr_len + m.body_len) block,
        ) in
      let fine = flows.quiet e offered no_event in
      (
        rw fine refl,
        (os.ssl_write e offered).1,
        flows.some_taken e offered (omega (arith, len)),
        omega (arith, flows.takes e offered, len),
        rw fine refl,
      )

module _ {File : Type 0} where
  abbrev joined : Sent File → Option (Sent File) → Option (Sent File)
  joined r none = none
  joined r (some q) = some (record q { count = r.count + q.count; wire = r.wire ++ q.wire })

  -- A caller that calls `Write` until `IsOutgoingMsgSent`, `n` times at most: the connection is in
  -- `os i` at the call `i`. `none` is a message that is not out by then.
  unfoldable pub deliver : ℕ → (ℕ → Os File) → Session File → ErrorHandler → Option (Sent File)
  unfolding write
  deliver zero os s e = none
  deliver (suc n) os s e =
      let rest : Option (Sent File) = elim (write (os 0) s e) [
        | none ↦ none
        | some r ↦ joined r (deliver n (λ i. os (suc i)) r.session r.error)
      ] in
      if is_outgoing_msg_sent s
      then some (record { session = s; error = e; count = 0; wire = [] })
      else rest

  deliver-sent :
      (n : ℕ) (os : ℕ → Os File) (s : Session File) (e : ErrorHandler)
      → is_outgoing_msg_sent s ≡ true
      → deliver (suc n) os s e ≡ some (record { session = s; error = e; count = 0; wire = [] })
  unfolding deliver
  deliver-sent n os s e sent = simp (deliver, sent)

  deliver-call :
      (n : ℕ) (os : ℕ → Os File) (s : Session File) (e : ErrorHandler) (r q : Sent File)
      → is_outgoing_msg_sent s ≡ false
      → write (os 0) s e ≡ some r
      → deliver n (λ i. os (suc i)) r.session r.error ≡ some q
      → deliver (suc n) os s e ≡ joined r (some q)
  unfolding deliver
  deliver-call n os s e r q more first rest = simp (deliver, more, first) (ap (joined r) rest)

  -- The message is out, with no event on the way.
  abbrev pub Delivers : ℕ → (ℕ → Os File) → Session File → ErrorHandler → Bytes → Type 0
  Delivers n os s e msg =
      (r : Sent File) × (deliver n os s e ≡ some r)
      × (r.error.event_flag ≡ false)
      × (is_outgoing_msg_sent r.session ≡ true)
      × (r.wire ≡ msg)

  -- By the count of bytes that are left.
  deliver-Writes :
      (left : ℕ) (os : ℕ → Os File) (s : Session File) (e : ErrorHandler) (block : Bytes)
      (m : MsgInfo) (ms : List MsgInfo)
      → ((i : ℕ) → Flows (os i))
      → m.hdr_len + m.body_len ≤ left + m.buf_offset
      → e.event_flag ≡ false
      → s.wbuf ≡ some block
      → s.wpending ≡ m ∷ ms
      → m.storage ≡ use_mem
      → m.hdr_len + m.body_len ≤ length block
      → m.buf_offset ≤ m.hdr_len + m.body_len
      → (r : Sent File) × (deliver (suc left) os s e ≡ some r)
        × (r.error.event_flag ≡ false)
        × (is_outgoing_msg_sent r.session ≡ true)
        × Writes File s r.wire r.session
  unfolding is_outgoing_msg_sent
  deliver-Writes zero os s e block m ms flows enough no_event eb ew st hb ho =
      let at : is_outgoing_msg_sent s ≡ is_sent m = simp (is_outgoing_msg_sent, ew) in
      let sent : is_sent m ≡ true = ground arith in
      (
        record { session = s; error = e; count = 0; wire = [] },
        deliver-sent zero os s e (at ∙ sent),
        no_event,
        at ∙ sent,
        done,
      )
  deliver-Writes (suc left) os s e block m ms flows enough no_event eb ew st hb ho =
      let at : is_outgoing_msg_sent s ≡ is_sent m = simp (is_outgoing_msg_sent, ew) in
      elim (Bool-cases (is_sent m)) [
        | inl sent ↦ (
          record { session = s; error = e; count = 0; wire = [] },
          deliver-sent (suc left) os s e (at ∙ sent),
          no_event,
          at ∙ sent,
          done,
        )
        | inr more ↦
            let behind : m.buf_offset < m.hdr_len + m.body_len = ground (arith, more) in
            let r = write_mem (os 0) s e block m ms in
            let first = write_first (os 0) s e block m ms eb ew st (flows 0).connected in
            let (quiet, n, positive, small, moved) =
              write_mem-moves (os 0) (flows 0) s e block m ms no_event behind hb in
            let (q, run, no_event', sent, calls) =
              deliver-Writes left (λ i. os (suc i)) r.session r.error block
                (record m { buf_offset = m.buf_offset + n }) ms (λ i. flows (suc i)) (omega arith)
                quiet (ap (λ (x : Session File). x.wbuf) moved ∙ eb)
                (ap (λ (x : Session File). x.wpending) moved) st hb (omega arith) in
            (
              record q { count = r.count + q.count; wire = r.wire ++ q.wire },
              deliver-call (suc left) os s e r q (at ∙ more) first run,
              no_event',
              sent,
              call (os 0) e r (flows 0).takes (flows 0).connected first quiet calls,
            )
      ]

  -- The first message of a sound session, with its header and body in the buffer and nothing of it
  -- sent, gets out: on a connection that at each call is up, raises no event, and takes some of what
  -- it is offered and no more than that, a caller that calls `Write` until `IsOutgoingMsgSent` holds
  -- is through after at most as many calls as the message has bytes, with no event, and what this
  -- connection was given is the message.
  pub message-delivered :
      (os : ℕ → Os File) (s : Session File) (e : ErrorHandler) (m : MsgInfo) (ms : List MsgInfo)
      (w : IsSound s)
      → ((i : ℕ) → Flows (os i))
      → e.event_flag ≡ false
      → s.wpending ≡ m ∷ ms
      → m.storage ≡ use_mem
      → m.buf_offset ≡ 0
      → m.file_offset ≡ 0
      → Delivers (m.hdr_len + m.body_len + 1) os s e (text w.block m)
  message-delivered os s e m ms w flows no_event ew st start no_file =
      let (r, run, quiet, sent, calls) =
        deliver-Writes (m.hdr_len + m.body_len) os s e w.block m ms flows (omega arith) no_event
          w.allocated ew st (front_fits s m ms w ew st) (omega (arith, start)) in
      let fuel : m.hdr_len + m.body_len + 1 ≡ suc (m.hdr_len + m.body_len) = omega arith in
      (
        r,
        ap (λ (n : ℕ). deliver n os s e) fuel ∙ run,
        quiet,
        sent,
        Writes-sent s m ms w ew st start no_file calls sent,
      )

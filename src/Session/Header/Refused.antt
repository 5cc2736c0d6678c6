-- ===== src/Session/Header/Refused.antt =====
-- `InitIncomingMsg` when it returns false.
use mathlib.Core.Path.{subst}
use ip_utils.Base.{
  ℕ, ◌≡◌, refl, sym, ap, ◌∙◌, ◌⊎◌, inl, inr, Bool, true, false, false≢true, Option, none, some,
  ◌==◌, arith, ltb, Bool-cases, Option-cases, Bytes, take, drop,
}
use ip_utils.Http.{Http}
use ip_utils.Http.Response.{Parsed}
use ip_utils.MsgHdr.{type_basic, type_http, MsgHdr}
use ip_utils.MsgHdr.InitFromBuf
use ip_utils.MsgHdr.InitFromBuf.{
  basic_hdr_size, buf_len, http_parse, init_basic_hdr, init_http_hdr, Around, Inited,
}
use ip_utils.Session.{zero_info, Os, Session}
use ip_utils.Session.Incoming.{reset_rbuf}
use ip_utils.Session.Header.{
  around, init_text, turned_away, after_error, after_header, init_incoming_msg, Outside,
}
use ip_utils.Session.Header.Accept.{accept_start}
use ip_utils.ErrorHandler.{ErrorHandler, append_msg}

-- A header that was not accepted differs in the HTTP object only.
abbrev OnlyHttp : MsgHdr → Inited → Type 0
OnlyHttp m i = (h : Http) × (i.hdr ≡ record m { hdr = record m.hdr { http = h } })

init_http_hdr-OnlyHttp :
    (a : Around) (m : MsgHdr) (p : Parsed) (used : Option ℕ)
    → (init_http_hdr a m p used).ok ≡ false
    → OnlyHttp m (init_http_hdr a m p used)
unfolding init_http_hdr
init_http_hdr-OnlyHttp a m p none refused = (p.http, refl)
init_http_hdr-OnlyHttp a m p (some used) refused = absurd (false≢true (sym refused))

init_basic_hdr-OnlyHttp :
    (a : Around) (m : MsgHdr) (e : ErrorHandler) (len : ℕ)
    → (init_basic_hdr a m e len).ok ≡ false
    → OnlyHttp m (init_basic_hdr a m e len)
init_basic_hdr-OnlyHttp a m e len refused = elim (Bool-cases (ltb len basic_hdr_size)) [
  | inl short ↦ rw short (m.hdr.http, refl)
  | inr long ↦
      let accepts : (init_basic_hdr a m e len).ok ≡ true = simp long in
      absurd (false≢true (sym refused ∙ accepts))
]

init_from_buf-OnlyHttp :
    (a : Around) (m : MsgHdr) (e : ErrorHandler) (buf : Option Bytes) (behind : Bytes)
    → (InitFromBuf.init_from_buf a m e buf behind).ok ≡ false
    → OnlyHttp m (InitFromBuf.init_from_buf a m e buf behind)
unfolding InitFromBuf.init_from_buf
init_from_buf-OnlyHttp a m e buf behind refused =
    let i = InitFromBuf.init_from_buf a m e buf behind in
    elim (Bool-cases (m.type == type_basic)) [
      | inl basic ↦
          let same : i ≡ init_basic_hdr a m e (buf_len buf) =
            simp (InitFromBuf.init_from_buf, basic) in
          subst (OnlyHttp m) (sym same) (
            init_basic_hdr-OnlyHttp a m e (buf_len buf)
              (ap (λ (x : Inited). x.ok) (sym same) ∙ refused))
      | inr not_basic ↦ elim (Bool-cases (m.type == type_http)) [
        | inl http ↦
            let p = http_parse a e buf behind in
            let same : i ≡ init_http_hdr a m p p.used =
              simp (InitFromBuf.init_from_buf, not_basic, http) in
            subst (OnlyHttp m) (sym same)
              (init_http_hdr-OnlyHttp a m p p.used (ap (λ (x : Inited). x.ok) (sym same) ∙ refused))
        | inr unknown ↦
            let accepts : i.ok ≡ true = simp (InitFromBuf.init_from_buf, not_basic, unknown) in
            absurd (false≢true (sym refused ∙ accepts))
      ]
    ]

module _ {File : Type 0} where
  -- A session with another HTTP object in its message header.
  abbrev pub with_http : Session File → Http → Session File
  with_http s h = record s { rhdr = record s.rhdr { hdr = record s.rhdr.hdr { http = h } } }

  -- What a call that returns false leaves. Nothing was there to read: the session as it was. No event:
  -- the session but for the HTTP object of its header. An event: a session whose incoming side is
  -- reset.
  abbrev pub Refused : Session File → Session File × ErrorHandler × ℕ × Bool → Type 0
  Refused s r =
      (((s.rbuf ≡ none) ⊎ (s.rbuf_len ≡ 0)) × (r.0 ≡ s))
      ⊎ (((h : Http) × (r.0 ≡ with_http s h) × (r.1.event_flag ≡ false))
          ⊎ ((r.0.rbuf_len ≡ 0) × (r.0.rpending ≡ zero_info) × (r.1.event_flag ≡ true)))

  module _ (os : Os File) where
    reset_session :
        (s : Session File) (e : ErrorHandler) (block : Bytes)
        → s.rbuf ≡ some block
        → ((reset_rbuf os s e).0.rbuf_len ≡ 0)
          × ((reset_rbuf os s e).0.rpending ≡ zero_info)
          × ((reset_rbuf os s e).1 ≡ e)
    unfolding reset_rbuf
    reset_session s e block eb =
        (simp (reset_rbuf, eb), simp (reset_rbuf, eb), simp (reset_rbuf, eb))

    append_msg_event :
        (e : ErrorHandler) (text : Option Bytes) → (append_msg e text).event_flag ≡ true
    unfolding append_msg
    append_msg_event e text = elim (Bool-cases e.event_flag) [
      | inl set ↦ rw set refl
      | inr unset ↦ rw unset refl
    ]

    after_error-Refused :
        (s : Session File) (m : MsgHdr) (h : Http) (e : ErrorHandler) (block : Bytes) (hash : ℕ)
        → s.rbuf ≡ some block
        → m ≡ record s.rhdr { hdr = record s.rhdr.hdr { http = h } }
        → Refused s (turned_away hash (after_error os (record s { rhdr = m }) e))
    after_error-Refused s m h e block hash eb same_hdr =
        let t : Session File = record s { rhdr = m } in
        elim (Bool-cases e.event_flag) [
          | inl set ↦
              let e' = append_msg e (some init_text) in
              let res : after_error os t e ≡ reset_rbuf os t e' = simp set in
              let (emptied, zeroed, same) = reset_session t e' block eb in
              rw res (
                inr (
                  inr (
                    emptied,
                    zeroed,
                    ap (λ (x : ErrorHandler). x.event_flag) same
                        ∙ append_msg_event e (some init_text),
                  )))
          | inr unset ↦
              let res : after_error os t e ≡ (t, e) = simp unset in
              rw res (inr (inl (h, ap (λ (x : MsgHdr). record s { rhdr = x }) same_hdr, unset)))
        ]

    after_header-Refused :
        (s : Session File) (block : Bytes) (i : Inited)
        → s.rbuf ≡ some block
        → (i.ok ≡ false → OnlyHttp s.rhdr i)
        → (after_header os s block i).3 ≡ false
        → Refused s (after_header os s block i)
    unfolding after_header
    after_header-Refused s block i eb only false_back = elim (Bool-cases i.ok) [
      | inl accept ↦
          let true_back : (after_header os s block i).3 ≡ true = simp (after_header, accept) in
          absurd (false≢true (sym false_back ∙ true_back))
      | inr turn ↦
          let res : after_header os s block i
              ≡ turned_away i.hash (after_error os (record s { rhdr = i.hdr }) i.error) =
            simp (after_header, turn) in
          let (h, same) = only turn in
          rw res (after_error-Refused s i.hdr h i.error block i.hash eb same)
    ]

    -- Where calloc(3) succeeds and `InitIncomingMsg` returns false, one of three things holds: the
    -- incoming buffer was NULL or held nothing, and the session is as it was; or no event is set, and
    -- nothing in the session has changed but the HTTP object of its message header; or an event is
    -- set, the incoming buffer is empty, and the meta-data of the message is zero.
    pub init_incoming_msg-Refused :
        (o : Outside) (s : Session File) (e : ErrorHandler)
        → o.calloc ≡ true
        → (init_incoming_msg os o s e).3 ≡ false
        → Refused s (init_incoming_msg os o s e)
    unfolding init_incoming_msg
    init_incoming_msg-Refused o s e memory false_back = elim (Option-cases s.rbuf) [
      | inl eb ↦
          let res : (init_incoming_msg os o s e).0 ≡ s = simp (init_incoming_msg, eb) in
          inl (inl eb, res)
      | inr (block, eb) ↦ elim (Bool-cases (s.rbuf_len == 0)) [
        | inl nothing ↦
            let res : (init_incoming_msg os o s e).0 ≡ s = simp (init_incoming_msg, eb, nothing) in
            inl (inr (ground (arith, nothing)), res)
        | inr some_there ↦
            let res = accept_start os o s e block eb some_there memory in
            rw res (
              after_header-Refused s block _ eb
                (init_from_buf-OnlyHttp (around o) s.rhdr e (some (take s.rbuf_len block))
                  (drop s.rbuf_len block))
                (sym (ap (λ r. r.3) res) ∙ false_back))
      ]
    ]

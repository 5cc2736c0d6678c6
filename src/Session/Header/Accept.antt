-- ===== src/Session/Header/Accept.antt =====
-- `InitIncomingMsg` on a buffer that begins with a printed request header.
use ip_utils.Base.{
  ℕ, zero, suc, ◌+◌, ◌≤◌, ◌<◌, ◌≡◌, refl, sym, ap, ◌∙◌, inl, inr, true, false, some, ◌++◌, arith,
  ltb, ◌==◌, Bool-cases, Option-cases, Bytes, length, take, drop, length-append, drop_append,
  is_empty, is_empty-false,
}
use ip_utils.Http.{msg_len, Http}
use ip_utils.Http.StartLine.{known_version}
use ip_utils.Http.Print.Hdr.{print_hdr, hdr_len}
use ip_utils.Http.Request.PrintText.{print_hdr-text, IsRequest}
use ip_utils.Http.Response.{Parsed}
use ip_utils.Http.InitFromBuf.{init_http_from_buf}
use ip_utils.Http.InitFromBuf.RoundTrip.{as_request, init_http_from_buf-print_hdr}
use ip_utils.MsgHdr.{type_basic, type_http, body_len, MsgHdr}
use ip_utils.MsgHdr.InitFromBuf.{next_id, init_http_hdr, init_from_buf, Around}
use ip_utils.Session.{use_mem, MsgInfo, Os, Session}
use ip_utils.Session.Incoming.{shift_rbuf}
use ip_utils.Session.Streaming.{waiting, shift_rbuf_lem}
use ip_utils.Session.Header.{
  around, set_rpending, take_header, accepted, after_header, init_incoming_msg, Outside,
}
use mathlib.Core.Path.{ap₂}
use ip_utils.ErrorHandler.{ErrorHandler}
use ip_utils.MsgHdr.InitFromBuf
use ip_utils.Http.Print.Hdr

-- An HTTP header that is parsed with no event gets the next number.
init_from_buf-http :
    (a : Around) (m : MsgHdr) (e : ErrorHandler) (buf behind : Bytes) (h : Http) (n : ℕ)
    → m.type ≡ type_http
    → init_http_from_buf a.realloc e (some buf) behind 0 a.chunked
      ≡ record { http = h; error = e; chunked = a.chunked; used = some n }
    → InitFromBuf.init_from_buf a m e (some buf) behind ≡ record {
      hdr = record m { msg_id = next_id a.hash; hdr = record m.hdr { http = h } };
      error = e;
      hash = next_id a.hash;
      chunked = a.chunked;
      bytes_used = n;
      ok = true;
    }
unfolding InitFromBuf.init_from_buf init_http_hdr
init_from_buf-http a m e buf behind h n kind parsed =
    let not_basic : (m.type == type_basic) ≡ false = ground (arith, kind) in
    let is_http : (m.type == type_http) ≡ true = ground (arith, kind) in
    rw (not_basic, is_http) (ap (λ (p : Parsed). init_http_hdr a m p p.used) parsed)

hdr_len-as_request :
    (g : Http) → IsRequest g → Hdr.hdr_len (as_request g) false ≡ length (print_hdr g 0 false)
unfolding Hdr.hdr_len known_version
hdr_len-as_request g r =
    let same : IsRequest (as_request g) = record {
      method = r.method;
      version = r.version;
      uri = r.uri;
      lines = r.lines;
      fits = r.fits;
    } in
    ap length (print_hdr-text (as_request g) same ∙ sym (print_hdr-text g r))

-- What waits is not empty.
take_some : (n : ℕ) (block xs t : Bytes) → take n block ≡ xs ++ t → is_empty t ≡ false → 0 < n
take_some zero block xs t h some_left =
    omega (arith, ap length h, length-append xs t, is_empty-false t some_left)
take_some (suc n) block xs t h some_left = omega arith

-- The lengths of an HTTP header.
http_lengths :
    (m : MsgHdr) (g : Http)
    → m.type ≡ type_http
    → m.hdr.http ≡ as_request g
    → IsRequest g
    → (InitFromBuf.hdr_len m ≡ length (print_hdr g 0 false)) × (body_len m ≡ msg_len g)
unfolding InitFromBuf.hdr_len body_len msg_len
http_lengths m g kind same r =
    let not_basic : (m.type == type_basic) ≡ false = ground (arith, kind) in
    let is_http : (m.type == type_http) ≡ true = ground (arith, kind) in
    (
      rw (not_basic, is_http)
          (ap (λ (h : Http). Hdr.hdr_len h false) same ∙ hdr_len-as_request g r),
      rw (not_basic, is_http) (ap msg_len same),
    )

abbrev info_of : MsgHdr × MsgInfo → MsgInfo
info_of (m, info) = record info {
  initialized = true;
  msg_id = m.msg_id;
  hdr_len = InitFromBuf.hdr_len m;
  body_len = body_len m;
  buf_offset = 0;
  file_offset = 0;
  storage = use_mem;
}

module _ {File : Type 0} where
  -- A shift of the buffer leaves the header and the meta-data alone.
  shift_rbuf-keeps :
      (s : Session File) (e : ErrorHandler) (len offset : ℕ)
      → ((shift_rbuf s e len offset).0.rhdr ≡ s.rhdr)
        × ((shift_rbuf s e len offset).0.rpending ≡ s.rpending)
  unfolding shift_rbuf
  shift_rbuf-keeps s e len offset = elim (Option-cases s.rbuf) [
    | inl eb ↦ (simp (shift_rbuf, eb), simp (shift_rbuf, eb))
    | inr (block, eb) ↦ elim (Bool-cases (ltb s.rbuf_len (len + offset))) [
      | inl beyond ↦ (simp (shift_rbuf, eb, beyond), simp (shift_rbuf, eb, beyond))
      | inr within ↦ (simp (shift_rbuf, eb, within), simp (shift_rbuf, eb, within))
    ]
  ]

  set_rpending_info : (s : Session File) → (set_rpending s).rpending ≡ info_of (s.rhdr, s.rpending)
  unfolding set_rpending
  set_rpending_info s = refl

  module _ (os : Os File) where
    pub accept_start :
        (o : Outside) (s : Session File) (e : ErrorHandler) (block : Bytes)
        → s.rbuf ≡ some block
        → (s.rbuf_len == 0) ≡ false
        → o.calloc ≡ true
        → init_incoming_msg os o s e
          ≡ after_header os s block (
              InitFromBuf.init_from_buf
                (around o)
                s.rhdr
                e
                (some (take s.rbuf_len block))
                (drop s.rbuf_len block))
    unfolding init_incoming_msg
    accept_start o s e block eb some_there memory = simp (init_incoming_msg, eb, some_there, memory)

    accept_res :
        (o : Outside) (s : Session File) (e : ErrorHandler) (g : Http) (block t : Bytes)
        → s.rbuf ≡ some block
        → take s.rbuf_len block ≡ print_hdr g 0 false ++ t
        → s.rhdr.type ≡ type_http
        → o.calloc ≡ true
        → IsRequest g
        → e.event_flag ≡ false
        → is_empty t ≡ false
        → init_incoming_msg os o s e
          ≡ accepted (next_id o.hash) (
              shift_rbuf
                (record s {
                  rhdr = record s.rhdr {
                    msg_id = next_id o.hash;
                    hdr = record s.rhdr.hdr { http = as_request g };
                  };
                })
                e
                (length (print_hdr g 0 false))
                0)
    unfolding after_header take_header
    accept_res o s e g block t eb text kind memory r no_event some_left =
        let behind = drop s.rbuf_len block in
        let some_there : (s.rbuf_len == 0) ≡ false =
          ground (arith, take_some s.rbuf_len block (print_hdr g 0 false) t text some_left) in
        accept_start o s e block eb some_there memory
        ∙ ap (after_header os s block) (
            ap (λ (buf : Bytes). InitFromBuf.init_from_buf (around o) s.rhdr e (some buf) behind)
              text
            ∙ init_from_buf-http (around o) s.rhdr e (print_hdr g 0 false ++ t) behind
                (as_request g) (length (print_hdr g 0 false)) kind
                (init_http_from_buf-print_hdr o.realloc g e t behind 0 (around o).chunked r no_event
                  some_left))

    -- When the incoming buffer of an HTTP session holds a printed request header, of a request that
    -- is written without loss, and something behind it, then `InitIncomingMsg`, where no event was
    -- set and calloc(3) succeeds, returns true with no event: what waits in the buffer is what
    -- stood behind the header, the message header is the printed request under the next number, and
    -- the meta-data of the message is initialized with the length of the header and the
    -- Content-Length of the request, for a body in memory of which nothing is read.
    pub init_incoming_msg-request :
        (o : Outside) (s : Session File) (e : ErrorHandler) (g : Http) (block t : Bytes)
        → s.rbuf ≡ some block
        → s.rbuf_len ≤ length block
        → take s.rbuf_len block ≡ print_hdr g 0 false ++ t
        → s.rhdr.type ≡ type_http
        → o.calloc ≡ true
        → IsRequest g
        → e.event_flag ≡ false
        → is_empty t ≡ false
        → let r = init_incoming_msg os o s e in
          (waiting r.0 ≡ t)
          × (r.0.rhdr.hdr.http ≡ as_request g)
          × (r.0.rpending ≡ record s.rpending {
            initialized = true;
            msg_id = next_id o.hash;
            hdr_len = length (print_hdr g 0 false);
            body_len = msg_len g;
            buf_offset = 0;
            file_offset = 0;
            storage = use_mem;
          })
          × (r.1 ≡ e)
          × (r.2 ≡ next_id o.hash)
          × (r.3 ≡ true)
    unfolding set_rpending
    init_incoming_msg-request o s e g block t eb bound text kind memory r no_event some_left =
        let n = length (print_hdr g 0 false) in
        let s' : Session File = record s {
          rhdr = record s.rhdr {
            msg_id = next_id o.hash;
            hdr = record s.rhdr.hdr { http = as_request g };
          };
        } in
        let shifted = shift_rbuf_lem s' e block n 0 eb bound (omega arith) in
        let (kept_hdr, kept_info) = shift_rbuf-keeps s' e n 0 in
        let (hdr_size, body_size) = http_lengths s'.rhdr g kind refl r in
        let waits : waiting s' ≡ print_hdr g 0 false ++ t = rw eb text in
        rw (accept_res o s e g block t eb text kind memory r no_event some_left) (
          shifted.0
              ∙ ap (λ (xs : Bytes). drop (0 + n) xs) waits
              ∙ ap (λ (k : ℕ). drop k (print_hdr g 0 false ++ t)) (omega arith)
              ∙ drop_append (print_hdr g 0 false) t,
          ap (λ (m : MsgHdr). m.hdr.http) kept_hdr,
          set_rpending_info (shift_rbuf s' e n 0).0
              ∙ ap₂ (λ (m : MsgHdr) (info : MsgInfo). info_of (m, info)) kept_hdr kept_info
              ∙ ap₂
                  (λ (h b : ℕ). record s.rpending {
                    initialized = true;
                    msg_id = next_id o.hash;
                    hdr_len = h;
                    body_len = b;
                    buf_offset = 0;
                    file_offset = 0;
                    storage = use_mem;
                  })
                  hdr_size body_size,
          shifted.1,
          refl,
          refl,
        )

-- ===== src/Net/Tls/Handshake/Up.antt =====
-- SSLConn.cc, Connect: what stands behind a call that leaves no event.
use mathlib.Core.Path.{subst}
use ip_utils.Base.{
  ◌≡◌, refl, sym, ap, ◌∙◌, ◌≢◌, inl, inr, Bool, true, false, ◌||◌, Option, none, some, ◌++◌,
  Bool-cases, Bytes, codes,
}
use ip_utils.ErrorHandler
use ip_utils.ErrorHandler.{ErrorHandler, append_msg}
use ip_utils.Net.{
  software_event, same_errno, econnrefused, etimedout, einval, Errno, Family, inet, inet6, unspec,
  other_family, Conn,
}
use ip_utils.Net.Resolve.{Resolver}
use ip_utils.Net.Tcp
use ip_utils.Net.Tcp.{Sockets, Done, refused, connected_by, connect_in}
use ip_utils.Net.Tls.{SslError, SslResult, positive, nothing, negative, SslConn}
use ip_utils.Net.Tls.Handshake.{
  goes_on, hand_event, shaken, fd_set, tcp_connected, ssl_connect, Handshakes, Joined,
}

pub true_not_false : true ≢ false
true_not_false e = cc

pub event_set : (e : ErrorHandler) (text : Bytes) → (software_event e text).event_flag ≡ true
unfolding ErrorHandler.init
event_set e text = refl

pub append_msg-flag :
    (e : ErrorHandler) (text : Option Bytes)
    → e.event_flag ≡ true
    → (append_msg e text).event_flag ≡ true
unfolding append_msg
append_msg-flag e text set = simp (append_msg, set) refl

module _ {K : Type 0} (os : Sockets K) (net : Resolver K) where
  refused-event :
      (e : ErrorHandler) (c : Conn) (errno : Errno)
      → c.blocking ≡ true
      → (refused os net e c errno).event_flag ≡ true
  unfolding ErrorHandler.init
  refused-event e c errno blocks =
      elim (Bool-cases (same_errno errno econnrefused || same_errno errno etimedout)) [
        | inl later ↦ simp (blocks, later) refl
        | inr other ↦ elim (Bool-cases (same_errno errno einval)) [
          | inl wrong ↦ simp (blocks, other, wrong) refl
          | inr system ↦ simp (blocks, other, system) refl
        ]
      ]

  connected_by-up :
      (c : Conn) (e : ErrorHandler) (r : K × Option Errno)
      → c.blocking ≡ true
      → (connected_by os net c e r).error.event_flag ≡ false
      → let d = connected_by os net c e r in
        (d.conn ≡ record c { connected = true }) × (r ≡ (d.kernel, none))
  connected_by-up c e (k, none) blocks quiet = (refl, refl)
  connected_by-up c e (k, some errno) blocks quiet =
      absurd (true_not_false (sym (refused-event e c errno blocks) ∙ quiet))

  connect_in-up :
      (family : Family) (k : K) (c : Conn) (e : ErrorHandler)
      → c.blocking ≡ true
      → (connect_in os net family k c e).error.event_flag ≡ false
      → let d = connect_in os net family k c e in
        (d.conn ≡ record c { connected = true }) × (os.connect k c.fd c.sockaddr ≡ (d.kernel, none))
  unfolding ErrorHandler.init
  connect_in-up inet k c e blocks quiet =
      connected_by-up c e (os.connect k c.fd c.sockaddr) blocks quiet
  connect_in-up inet6 k c e blocks quiet =
      connected_by-up c e (os.connect k c.fd c.sockaddr) blocks quiet
  connect_in-up unspec k c e blocks quiet = absurd (true_not_false quiet)
  connect_in-up (other_family n) k c e blocks quiet = absurd (true_not_false quiet)

module _ {K : Type 0} (hs : Handshakes K) where
  -- A handshake that is through, from the state `k`: SSL_connect(3) has succeeded, and then the peer
  -- was asked for its certificate.
  abbrev pub Through : K → SslConn → Joined K → Type 0
  Through k s j =
      (j.conn ≡ s)
      × ((k' : K) × (b : Bool) × (hs.ssl_connect k ≡ (k', positive tt))
          × (hs.peer_certificate k' ≡ (j.kernel, b))
          × (j.certificate ≡ some b))

  -- The same behind SSL_set_fd(3), which has succeeded on the descriptor of the connection.
  abbrev pub Given : K → SslConn → Joined K → Type 0
  Given k s j = (k' : K) × (hs.set_fd k s.conn.fd ≡ (k', true)) × Through k' s j

  hand_event-flag :
      (k : K) (s : SslConn) (e : ErrorHandler) (routine : Bytes)
      → (hand_event hs k s e routine).event_flag ≡ true
  hand_event-flag k s e routine =
      event_set e (codes "SSLConn::" ++ (routine ++ (codes "(): " ++ hs.report s.conn k)))

  negative-flag :
      (s : SslConn) (e : ErrorHandler) (k : K) (code : SslError)
      → s.conn.blocking ≡ true
      → (shaken hs s e (k, negative code)).error.event_flag ≡ true
  negative-flag s e k code blocks = elim (Bool-cases (goes_on code)) [
    | inl later ↦ simp (later, blocks) (hand_event-flag k s e (codes "Connect"))
    | inr never ↦ simp never (hand_event-flag k s e (codes "Connect"))
  ]

  shaken-Through :
      (start : K) (s : SslConn) (e : ErrorHandler) (r : K × SslResult (Unit {0}))
      → hs.ssl_connect start ≡ r
      → s.conn.blocking ≡ true
      → (shaken hs s e r).error.event_flag ≡ false
      → Through start s (shaken hs s e r)
  shaken-Through start s e (k, positive u) made blocks quiet =
      (refl, (k, (hs.peer_certificate k).1, made, refl, refl))
  shaken-Through start s e (k, nothing code) made blocks quiet =
      absurd (true_not_false (sym (hand_event-flag k s e (codes "Connect")) ∙ quiet))
  shaken-Through start s e (k, negative code) made blocks quiet =
      absurd (true_not_false (sym (negative-flag s e k code blocks) ∙ quiet))

  fd_set-Given :
      (start : K) (s : SslConn) (e : ErrorHandler) (r : K × Bool)
      → hs.set_fd start s.conn.fd ≡ r
      → s.conn.blocking ≡ true
      → (fd_set hs s e r).error.event_flag ≡ false
      → Given start s (fd_set hs s e r)
  fd_set-Given start s e (k, true) made blocks quiet =
      (k, made, shaken-Through k s e (hs.ssl_connect k) refl blocks quiet)
  fd_set-Given start s e (k, false) made blocks quiet =
      absurd (true_not_false (sym (hand_event-flag k s e (codes "Connect")) ∙ quiet))

  tcp_connected-set :
      (s : SslConn) (d : Done K)
      → d.error.event_flag ≡ true
      → (tcp_connected hs s d).error.event_flag ≡ true
  tcp_connected-set s d set =
      simp set (append_msg-flag d.error (some (codes "SSLConn::Connect(): ")) set)

  tcp_connected-unset :
      (s : SslConn) (d : Done K)
      → s.ssl ≡ true
      → d.error.event_flag ≡ false
      → tcp_connected hs s d
        ≡ fd_set hs (record s { conn = d.conn }) d.error (hs.set_fd d.kernel d.conn.fd)
  tcp_connected-unset s d tls unset = simp (unset, tls) refl

  tcp_connected-Given :
      (s : SslConn) (d : Done K)
      → s.ssl ≡ true
      → d.conn.blocking ≡ true
      → (tcp_connected hs s d).error.event_flag ≡ false
      → (d.error.event_flag ≡ false)
        × Given d.kernel (record s { conn = d.conn }) (tcp_connected hs s d)
  tcp_connected-Given s d tls blocks quiet = elim (Bool-cases d.error.event_flag) [
    | inl set ↦ absurd (true_not_false (sym (tcp_connected-set s d set) ∙ quiet))
    | inr unset ↦
        let same = tcp_connected-unset s d tls unset in
        (
          unset,
          subst (Given d.kernel (record s { conn = d.conn })) (sym same) (
              fd_set-Given d.kernel (record s { conn = d.conn }) d.error
                (hs.set_fd d.kernel d.conn.fd) refl blocks
                (ap (λ (j : Joined K). j.error.event_flag) (sym same) ∙ quiet)),
        )
  ]

module _ {K : Type 0} (hs : Handshakes K) (os : Sockets K) (net : Resolver K) where
  connected_by-blocking :
      (c : Conn) (e : ErrorHandler) (r : K × Option Errno)
      → (connected_by os net c e r).conn.blocking ≡ c.blocking
  connected_by-blocking c e (k, none) = refl
  connected_by-blocking c e (k, some errno) = refl

  connect_in-blocking :
      (family : Family) (k : K) (c : Conn) (e : ErrorHandler)
      → (connect_in os net family k c e).conn.blocking ≡ c.blocking
  connect_in-blocking inet k c e = connected_by-blocking c e (os.connect k c.fd c.sockaddr)
  connect_in-blocking inet6 k c e = connected_by-blocking c e (os.connect k c.fd c.sockaddr)
  connect_in-blocking unspec k c e = refl
  connect_in-blocking (other_family n) k c e = refl

  -- What the calls have answered behind a connection that is up: connect(2), SSL_set_fd(3),
  -- SSL_connect(3), and the question for the certificate of the peer.
  abbrev pub IsUp : K → SslConn → Joined K → Type 0
  IsUp k s j =
      let s' = record s { conn = record s.conn { connected = true } } in
      (k' : K) × (os.connect k s.conn.fd s.conn.sockaddr ≡ (k', none)) × Given hs k' s' j

  -- When `SSLConn::Connect` on a blocking connection with TLS leaves no event, the connection is up
  -- and the handshake is through: connect(2) to the address of the object has succeeded, then
  -- SSL_set_fd(3) with its descriptor, then SSL_connect(3), and then the peer was asked for its
  -- certificate, whose presence is what the call found. The object is marked as connected, and the
  -- rest of it is as it was.
  pub ssl_connect-IsUp :
      (k : K) (s : SslConn) (e : ErrorHandler)
      → s.ssl ≡ true
      → s.conn.blocking ≡ true
      → (ssl_connect hs os net k s e).error.event_flag ≡ false
      → IsUp k s (ssl_connect hs os net k s e)
  unfolding ssl_connect Tcp.connect
  ssl_connect-IsUp k s e tls blocks quiet =
      let d = connect_in os net s.conn.family k s.conn e in
      let (unset, given) =
        tcp_connected-Given hs s d tls (connect_in-blocking s.conn.family k s.conn e ∙ blocks)
          quiet in
      let (up, answered) = connect_in-up os net s.conn.family k s.conn e blocks unset in
      (
        d.kernel,
        answered,
        subst
            (λ (c : Conn). Given hs d.kernel (record s { conn = c }) (ssl_connect hs os net k s e))
            up given,
      )

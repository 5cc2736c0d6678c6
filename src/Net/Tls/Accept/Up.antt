-- ===== src/Net/Tls/Accept/Up.antt =====
-- SSLConn.cc, Accept: what stands behind a call that leaves no event.
use mathlib.Core.Path.{subst}
use ip_utils.Base.{
  ℕ, ◌≡◌, refl, sym, ap, ◌∙◌, inl, inr, Bool, true, false, not, ◌&&◌, if◌then◌else◌, some, ◌++◌,
  Bool-cases, Bytes, codes,
}
use ip_utils.ErrorHandler
use ip_utils.ErrorHandler.{ErrorHandler}
use ip_utils.Net.{
  Errno, eagain, same_errno, Result, got, failed, Family, inet, inet6, unspec, other_family,
  SockAddr, Conn, set_address_family,
}
use ip_utils.Net.Datagram.{setsockopt, Datagrams}
use ip_utils.Net.Resolve.{
  dns_retries, retry, named, resolve_in, resolve_dns_name, Lookup, found, again, no_luck, Resolver,
}
use ip_utils.Net.Tcp
use ip_utils.Net.Tcp.{Sockets, Done, taken, accept_in}
use ip_utils.Net.Tls.{SslError, SslResult, positive, nothing, negative, SslConn}
use ip_utils.Net.Tls.Handshake.{goes_on, Joined}
use ip_utils.Net.Tls.Handshake.Up.{true_not_false, event_set, append_msg-flag}
use ip_utils.Net.Tls.Accept.{
  accept_event, kept, accepted, fd_given, ssl_made, timeout_set, tcp_accepted, ssl_accept, Servers,
}

-- A connection that has a descriptor and is marked as connected.
abbrev pub IsUp : Conn → Type 0
IsUp c = (c.connected ≡ true) × ((fd : ℕ) × (c.fd ≡ some fd))

module _ {K : Type 0} (os : Sockets K) (net : Resolver K) where
  named-IsUp :
      (c : Conn) (e : ErrorHandler) (r : K × Lookup Bytes × ℕ)
      → IsUp c
      → IsUp (named net c e r).conn
  named-IsUp c e (k, found host, left) up = up
  named-IsUp c e (k, again, left) up = up
  named-IsUp c e (k, no_luck n, left) up = up

  resolve_in-IsUp :
      (family : Family) (k : K) (c : Conn) (e : ErrorHandler) (retries : ℕ)
      → IsUp c
      → IsUp (resolve_in net family k c e retries).conn
  resolve_in-IsUp inet k c e retries up =
      named-IsUp c e (retry retries (net.getnameinfo c.sockaddr) k) up
  resolve_in-IsUp inet6 k c e retries up =
      named-IsUp c e (retry retries (net.getnameinfo c.sockaddr) k) up
  resolve_in-IsUp unspec k c e retries up = up
  resolve_in-IsUp (other_family n) k c e retries up = up

  accept_event-flag :
      (e : ErrorHandler) (c : Conn) (errno : Errno)
      → (Tcp.accept_event os net e c errno).event_flag ≡ true
  unfolding ErrorHandler.init
  accept_event-flag e c errno = elim (Bool-cases (not c.blocking && same_errno errno eagain)) [
    | inl later ↦ simp later refl
    | inr other ↦ simp other refl
  ]

  taken-IsUp :
      (c client : Conn) (e : ErrorHandler) (r : K × Result ℕ × Family × SockAddr)
      → (taken os net c client e r).error.event_flag ≡ false
      → IsUp (taken os net c client e r).conn
  unfolding resolve_dns_name set_address_family
  taken-IsUp c client e (k, failed errno, family, peer) quiet =
      absurd (true_not_false (sym (accept_event-flag e c errno) ∙ quiet))
  taken-IsUp c client e (k, got fd, family, peer) quiet =
      resolve_in-IsUp family k
        (record (set_address_family client family) {
          sockaddr = peer;
          fd = some fd;
          connected = true;
          blocking = c.blocking && client.blocking;
        })
        e dns_retries (refl, (fd, refl))

  accept_in-IsUp :
      (family : Family) (k : K) (c client : Conn) (e : ErrorHandler)
      → (accept_in os net family k c client e).error.event_flag ≡ false
      → IsUp (accept_in os net family k c client e).conn
  unfolding ErrorHandler.init
  accept_in-IsUp inet k c client e quiet = taken-IsUp c client e (os.accept k c.fd) quiet
  accept_in-IsUp inet6 k c client e quiet = taken-IsUp c client e (os.accept k c.fd) quiet
  accept_in-IsUp unspec k c client e quiet = absurd (true_not_false quiet)
  accept_in-IsUp (other_family n) k c client e quiet = absurd (true_not_false quiet)

module _ {K : Type 0} (sv : Servers K) (s : SslConn) (blocks : s.conn.blocking ≡ true) where
  -- The peer's object with its SSL object, whose handshake is through, and no event before it.
  abbrev Through : SslConn → ErrorHandler → Joined K → Type 0
  Through peer e j = (j.conn ≡ peer) × (j.error ≡ e) × ((b : Bool) × (j.certificate ≡ some b))

  accept_event-set :
      (k : K) (peer : SslConn) (e : ErrorHandler) → (accept_event sv k peer e).event_flag ≡ true
  accept_event-set k peer e = event_set e (codes "SSLConn::Accept" ++ sv.report peer.conn k)

  negative-set :
      (peer : SslConn) (e : ErrorHandler) (k : K) (code : SslError)
      → (accepted sv s peer e (k, negative code)).error.event_flag ≡ true
  negative-set peer e k code = elim (Bool-cases (goes_on code)) [
    | inl later ↦ simp (later, blocks) (accept_event-set k peer e)
    | inr never ↦ simp never (accept_event-set k peer e)
  ]

  accepted-Through :
      (peer : SslConn) (e : ErrorHandler) (r : K × SslResult (Unit {0}))
      → (accepted sv s peer e r).error.event_flag ≡ false
      → Through peer e (accepted sv s peer e r)
  accepted-Through peer e (k, positive u) quiet = (refl, refl, ((sv.peer_certificate k).1, refl))
  accepted-Through peer e (k, nothing code) quiet =
      absurd (true_not_false (sym (accept_event-set k peer e) ∙ quiet))
  accepted-Through peer e (k, negative code) quiet =
      absurd (true_not_false (sym (negative-set peer e k code) ∙ quiet))

  fd_given-Through :
      (peer : SslConn) (e : ErrorHandler) (r : K × Bool)
      → (fd_given sv s peer e r).error.event_flag ≡ false
      → Through peer e (fd_given sv s peer e r)
  fd_given-Through peer e (k, true) quiet = accepted-Through peer e (sv.ssl_accept k) quiet
  fd_given-Through peer e (k, false) quiet =
      absurd (true_not_false (sym (accept_event-set k peer e) ∙ quiet))

  ssl_made-Through :
      (peer : SslConn) (e : ErrorHandler) (r : K × Bool)
      → (ssl_made sv s peer e r).error.event_flag ≡ false
      → Through (record peer { ssl = true }) e (ssl_made sv s peer e r)
  ssl_made-Through peer e (k, true) quiet =
      fd_given-Through (record peer { ssl = true }) e (sv.set_fd k peer.conn.fd) quiet
  ssl_made-Through peer e (k, false) quiet =
      absurd (true_not_false (sym (accept_event-set k peer e) ∙ quiet))

  timeout_set-Through :
      (peer : SslConn) (r : K × ErrorHandler)
      → s.ssl ≡ true
      → (timeout_set sv s peer r).error.event_flag ≡ false
      → Through (record peer { ssl = true }) r.1 (timeout_set sv s peer r)
  timeout_set-Through peer (k, e) tls =
      subst
        (λ (b : Bool).
          let j = if not b then kept sv k peer e else ssl_made sv s peer e (sv.new_ssl k) in
          j.error.event_flag ≡ false → Through (record peer { ssl = true }) e j)
        (sym tls) (ssl_made-Through peer e (sv.new_ssl k))

module _ {K Msg : Type 0} (sv : Servers K) (os : Sockets K) (net : Resolver K)
    (options : Datagrams K Msg) where
  tcp_accepted-set :
      (s peer : SslConn) (d : Done K)
      → d.error.event_flag ≡ true
      → (tcp_accepted sv os net options s peer d).error.event_flag ≡ true
  unfolding setsockopt
  tcp_accepted-set s peer d set =
      simp set (append_msg-flag d.error (some (codes "SSLConn::Accept(): ")) set)

  -- What Setsockopt leaves, which Accept goes on with.
  abbrev pub timed : Done K → K × ErrorHandler
  unfolding setsockopt
  timed d = setsockopt options d.kernel d.conn d.error sv.sol_socket sv.so_rcvtimeo sv.five_minutes

  tcp_accepted-unset :
      (s peer : SslConn) (d : Done K)
      → d.error.event_flag ≡ false
      → tcp_accepted sv os net options s peer d
        ≡ timeout_set sv s (record peer { conn = d.conn }) (timed d)
  unfolding setsockopt
  tcp_accepted-unset s peer d unset = simp unset refl

  -- When `SSLConn::Accept` of a blocking listener with TLS leaves no event, the peer's object is
  -- connected and has a descriptor and an SSL object, and a certificate has been asked for.
  pub ssl_accept-IsUp :
      (k : K) (s peer : SslConn) (e : ErrorHandler)
      → s.ssl ≡ true
      → s.conn.blocking ≡ true
      → (ssl_accept sv os net options k s peer e).error.event_flag ≡ false
      → IsUp (ssl_accept sv os net options k s peer e).conn.conn
        × ((ssl_accept sv os net options k s peer e).conn.ssl ≡ true)
        × ((b : Bool) × ((ssl_accept sv os net options k s peer e).certificate ≡ some b))
  unfolding ssl_accept Tcp.accept
  ssl_accept-IsUp k s peer e tls blocks quiet =
      let d = accept_in os net s.conn.family k s.conn peer.conn e in
      elim (Bool-cases d.error.event_flag) [
        | inl set ↦ absurd (true_not_false (sym (tcp_accepted-set s peer d set) ∙ quiet))
        | inr unset ↦
            let same = tcp_accepted-unset s peer d unset in
            let (kept_it, noted, asked) =
              timeout_set-Through sv s blocks (record peer { conn = d.conn }) (timed d) tls
                (ap (λ (j : Joined K). j.error.event_flag) (sym same) ∙ quiet) in
            let left = ap (λ (j : Joined K). j.conn) same ∙ kept_it in
            (
              subst (λ (x : SslConn). IsUp x.conn) (sym left)
                  (accept_in-IsUp os net s.conn.family k s.conn peer.conn e unset),
              ap (λ (x : SslConn). x.ssl) left,
              subst (λ (j : Joined K). (b : Bool) × (j.certificate ≡ some b)) (sym same) asked,
            )
      ]

-- ===== src/Net/Tls/Handshake.antt =====
-- SSLConn.cc: Socket and Connect. What OpenSSL does is a parameter.
pub mod Up
use mathlib.Core.Path.{subst}
use ip_utils.Base.{
  ℕ, ◌≡◌, refl, sym, ap, ◌∙◌, ◌≢◌, inl, inr, Bool, true, false, not, ◌&&◌, ◌||◌, Option, none, some,
  ◌++◌, if◌then◌else◌, Bool-cases, Bytes, codes,
}
use ip_utils.ErrorHandler
use ip_utils.ErrorHandler.{ErrorHandler, append_msg}
use ip_utils.Net.{
  software_event, same_errno, econnrefused, etimedout, einval, Errno, Family, inet, inet6, unspec,
  other_family, Conn, Kernel,
}
use ip_utils.Net.Flags.{Ran, socket}
use ip_utils.Net.Resolve.{Resolver}
use ip_utils.Net.Tcp
use ip_utils.Net.Tcp.{Sockets, Done, refused, connected_by, connect_in}
use ip_utils.Net.Tls.{
  SslError, want_read, want_write, want_accept, want_connect, SslResult, positive, nothing,
  negative, SslConn,
}

-- The calls of OpenSSL that set a connection up; `new_ssl` and `set_fd` succeed or not.
pub record Handshakes (K : Type 0) : Type 0 where
  pub new_ssl : K → K × Bool
  pub set_fd : K → Option ℕ → K × Bool
  pub ssl_connect : K → K × SslResult (Unit {0})
  -- SSL_get_peer_certificate(3): whether there is one.
  pub peer_certificate : K → K × Bool
  -- What a message says behind the name of the routine.
  pub report : Conn → K → Bytes

-- `certificate` is whether the peer has one, and `none` where the code has not asked.
pub record Joined (K : Type 0) : Type 0 where
  pub kernel : K
  pub conn : SslConn
  pub error : ErrorHandler
  pub certificate : Option Bool

-- The codes of a handshake that goes on when the socket is ready.
abbrev pub goes_on : SslError → Bool
goes_on want_read = true
goes_on want_write = true
goes_on want_accept = true
goes_on want_connect = true
goes_on code = false

module _ {K : Type 0} (hs : Handshakes K) where
  abbrev joined : K → SslConn → ErrorHandler → Joined K
  joined k s e = record { kernel = k; conn = s; error = e; certificate = none }

  abbrev pub hand_event : K → SslConn → ErrorHandler → Bytes → ErrorHandler
  hand_event k s e routine =
      software_event e (codes "SSLConn::" ++ (routine ++ (codes "(): " ++ hs.report s.conn k)))

  -- Behind SSL_new(3).
  abbrev with_ssl : SslConn → ErrorHandler → K × Bool → Joined K
  with_ssl s e (k, true) = joined k (record s { ssl = true }) e
  with_ssl s e (k, false) = joined k (record s { ssl = false }) (hand_event k s e (codes "Socket"))

  -- Behind `IPComm::Socket`; `ctx` is whether the caller wants TLS.
  abbrev socket_open : SslConn → Bool → Ran K → Joined K
  socket_open s ctx r =
      let s' = record s { conn = r.conn } in
      if r.error.event_flag
      then joined r.kernel s' (append_msg r.error (some (codes "SSLConn::Socket(): ")))
      else if not ctx
      then joined r.kernel s' r.error
      else with_ssl s' r.error (hs.new_ssl r.kernel)

  -- Behind SSL_connect(3).
  abbrev pub shaken : SslConn → ErrorHandler → K × SslResult (Unit {0}) → Joined K
  shaken s e (k, positive u) =
      let (k', certificate) = hs.peer_certificate k in
      record { kernel = k'; conn = s; error = e; certificate = some certificate }
  shaken s e (k, nothing code) = joined k s (hand_event k s e (codes "Connect"))
  shaken s e (k, negative code) =
      if goes_on code && not s.conn.blocking
      then joined k s e
      else joined k s (hand_event k s e (codes "Connect"))

  -- Behind SSL_set_fd(3).
  abbrev pub fd_set : SslConn → ErrorHandler → K × Bool → Joined K
  fd_set s e (k, true) = shaken s e (hs.ssl_connect k)
  fd_set s e (k, false) = joined k s (hand_event k s e (codes "Connect"))

  -- Behind `TCPConn::Connect`.
  abbrev pub tcp_connected : SslConn → Done K → Joined K
  tcp_connected s d =
      let s' = record s { conn = d.conn } in
      if d.error.event_flag
      then joined d.kernel s' (append_msg d.error (some (codes "SSLConn::Connect(): ")))
      else if not s.ssl
      then joined d.kernel s' d.error
      else fd_set s' d.error (hs.set_fd d.kernel d.conn.fd)

  module _ (os : Kernel K) where
    -- `SSLConn::Socket`
    unfoldable pub ssl_socket : K → SslConn → ErrorHandler → ℕ → ℕ → ℕ → Bool → Joined K
    unfolding socket append_msg
    ssl_socket k s e domain kind protocol ctx =
        socket_open s ctx (socket os k s.conn e domain kind protocol)

  module _ (os : Sockets K) (net : Resolver K) where
    -- `SSLConn::Connect`
    unfoldable pub ssl_connect : K → SslConn → ErrorHandler → Joined K
    unfolding Tcp.connect append_msg
    ssl_connect k s e = tcp_connected s (Tcp.connect os net k s.conn e)

-- ===== src/Net/Tls/Accept.antt =====
-- SSLConn.cc: Accept. What OpenSSL does is a parameter.
pub mod Up
use ip_utils.Base.{
  ℕ, Bool, true, false, not, ◌&&◌, Option, none, some, ◌++◌, if◌then◌else◌, Bytes, codes,
}
use ip_utils.ErrorHandler.{ErrorHandler, append_msg}
use ip_utils.Net.{new_conn, software_event, Conn}
use ip_utils.Net.Datagram.{setsockopt, Datagrams}
use ip_utils.Net.Resolve.{Resolver}
use ip_utils.Net.Tcp
use ip_utils.Net.Tcp.{Sockets, Done}
use ip_utils.Net.Tls.{SslResult, positive, nothing, negative, SslConn}
use ip_utils.Net.Tls.Handshake.{goes_on, Joined}

-- The calls of OpenSSL that take a connection in. The code of a result that is not positive is
-- what SSL_get_error(3) gives for the object of the listener, which is the one that is asked; so is
-- SSL_get_peer_certificate(3).
pub record Servers (K : Type 0) : Type 0 where
  pub new_ssl : K → K × Bool
  pub set_fd : K → Option ℕ → K × Bool
  pub ssl_accept : K → K × SslResult (Unit {0})
  pub peer_certificate : K → K × Bool
  -- What a message says behind the name of the routine.
  pub report : Conn → K → Bytes
  -- SOL_SOCKET, SO_RCVTIMEO, and the bytes of a timeval of 5 minutes.
  pub sol_socket : ℕ
  pub so_rcvtimeo : ℕ
  pub five_minutes : Bytes

module _ {K : Type 0} (sv : Servers K) where
  abbrev pub kept : K → SslConn → ErrorHandler → Joined K
  kept k peer e = record { kernel = k; conn = peer; error = e; certificate = none }

  abbrev pub accept_event : K → SslConn → ErrorHandler → ErrorHandler
  accept_event k peer e = software_event e (codes "SSLConn::Accept" ++ sv.report peer.conn k)

  -- Behind SSL_accept(3); `s` is the listener.
  abbrev pub accepted : SslConn → SslConn → ErrorHandler → K × SslResult (Unit {0}) → Joined K
  accepted s peer e (k, positive u) =
      let (k', certificate) = sv.peer_certificate k in
      record { kernel = k'; conn = peer; error = e; certificate = some certificate }
  accepted s peer e (k, nothing code) = kept k peer (accept_event k peer e)
  accepted s peer e (k, negative code) =
      if goes_on code && not s.conn.blocking
      then kept k peer e
      else kept k peer (accept_event k peer e)

  -- Behind SSL_set_fd(3).
  abbrev pub fd_given : SslConn → SslConn → ErrorHandler → K × Bool → Joined K
  fd_given s peer e (k, true) = accepted s peer e (sv.ssl_accept k)
  fd_given s peer e (k, false) = kept k peer (accept_event k peer e)

  -- Behind SSL_new(3).
  abbrev pub ssl_made : SslConn → SslConn → ErrorHandler → K × Bool → Joined K
  ssl_made s peer e (k, true) = fd_given s (record peer { ssl = true }) e (sv.set_fd k peer.conn.fd)
  ssl_made s peer e (k, false) = kept k (record peer { ssl = false }) (accept_event k peer e)

  -- Behind `peer->Setsockopt`, whose event is not looked at.
  abbrev pub timeout_set : SslConn → SslConn → K × ErrorHandler → Joined K
  timeout_set s peer (k, e) = if not s.ssl then kept k peer e else ssl_made s peer e (sv.new_ssl k)

  module _ {Msg : Type 0} (os : Sockets K) (net : Resolver K) (options : Datagrams K Msg) where
    -- Behind `TCPConn::Accept`.
    abbrev pub tcp_accepted : SslConn → SslConn → Done K → Joined K
    unfolding setsockopt
    tcp_accepted s peer d =
        let peer' = record peer { conn = d.conn } in
        if d.error.event_flag
        then kept d.kernel peer' (append_msg d.error (some (codes "SSLConn::Accept(): ")))
        else timeout_set s peer' (
            setsockopt options d.kernel d.conn d.error sv.sol_socket sv.so_rcvtimeo sv.five_minutes)

    -- `SSLConn::Accept(peer, ctx)`, and `SSLConn::Accept(ctx)`
    unfoldable pub ssl_accept : K → SslConn → SslConn → ErrorHandler → Joined K
    unfolding Tcp.accept setsockopt append_msg
    ssl_accept k s peer e = tcp_accepted s peer (Tcp.accept os net k s.conn peer.conn e)

    unfoldable pub ssl_accept_new : K → SslConn → ErrorHandler → Joined K
    unfolding ssl_accept
    ssl_accept_new k s e = ssl_accept k s (record { conn = new_conn; ssl = false }) e

-- ===== src/Tests/AcceptTests.antt =====
-- SSLConn.cc, Accept: the theorem on a concrete connection.
use ip_utils.Base.{ℕ, suc, ◌≡◌, refl, Bool, true, false, none, some, [], Bytes}
use ip_utils.ErrorHandler.{no_error}
use ip_utils.Net.{new_conn, got, zero_addr}
use ip_utils.Net.Datagram.{setsockopt, Datagrams}
use ip_utils.Net.Resolve.{found, resolve_dns_name, retry, Resolver}
use ip_utils.Net.Tcp
use ip_utils.Net.Tls.{positive, SslConn}
use ip_utils.Net.Tls.Accept.{ssl_accept, Servers}
use ip_utils.Net.Tls.Accept.Up.{ssl_accept-IsUp, IsUp}
use ip_utils.Tests.HandshakeTests.{listener, silent, client}

abbrev server : Servers ℕ
server = record {
  new_ssl = λ k. (suc k, true);
  set_fd = λ k fd. (suc k, true);
  ssl_accept = λ k. (suc k, positive tt);
  peer_certificate = λ k. (suc k, true);
  report = λ c k. [];
  sol_socket = 1;
  so_rcvtimeo = 20;
  five_minutes = [];
}

abbrev plain_options : Datagrams ℕ Bytes
plain_options = record {
  recvfrom = λ k fd n. (k, got ([], zero_addr));
  sendto = λ k fd bs to. (k, got 0);
  recvmsg = λ k fd flags. (k, got (0, []));
  sendmsg = λ k fd msg flags. (k, got 0);
  getsockopt = λ k fd level name n. (k, got []);
  setsockopt = λ k fd level name value. (suc k, none);
  strerror = λ n. [];
}

abbrev named_peers : Resolver ℕ
named_peers = record silent { getnameinfo = λ a k. (suc k, found []) }

abbrev fresh_peer : SslConn
fresh_peer = record { conn = new_conn; ssl = false }

accept-quiet :
    (ssl_accept server listener named_peers plain_options 0 client fresh_peer
      no_error).error.event_flag
    ≡ false
unfolding ssl_accept Tcp.accept setsockopt resolve_dns_name retry
accept-quiet = refl

ssl_accept-IsUp_example :
    let r = ssl_accept server listener named_peers plain_options 0 client fresh_peer no_error in
    IsUp r.conn.conn × (r.conn.ssl ≡ true) × ((b : Bool) × (r.certificate ≡ some b))
ssl_accept-IsUp_example =
    ssl_accept-IsUp server listener named_peers plain_options 0 client fresh_peer no_error refl refl
      accept-quiet

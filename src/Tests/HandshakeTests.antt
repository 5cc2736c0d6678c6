-- ===== src/Tests/HandshakeTests.antt =====
-- SSLConn.cc, Connect: the theorem on a concrete handshake.
use ip_utils.Base.{ℕ, suc, false, ◌≡◌, refl, true, none, some, []}
use ip_utils.ErrorHandler.{no_error}
use ip_utils.Net.{new_conn, got, zero_addr, inet}
use ip_utils.Net.Resolve.{again, Resolver}
use ip_utils.Net.Tcp
use ip_utils.Net.Tcp.{Sockets}
use ip_utils.Net.Tls.{positive, SslConn}
use ip_utils.Net.Tls.Handshake.{Handshakes, ssl_connect}
use ip_utils.Net.Tls.Handshake.Up.{ssl_connect-IsUp, IsUp}

-- The state is the count of calls.
abbrev willing : Handshakes ℕ
willing = record {
  new_ssl = λ k. (suc k, true);
  set_fd = λ k fd. (suc k, true);
  ssl_connect = λ k. (suc k, positive tt);
  peer_certificate = λ k. (suc k, true);
  report = λ c k. [];
}

abbrev pub listener : Sockets ℕ
listener = record {
  connect = λ k fd to. (suc k, none);
  bind = λ k fd at. (suc k, none);
  listen = λ k fd backlog. (suc k, none);
  accept = λ k fd. (suc k, got 6, inet, zero_addr);
  getsockname = λ k fd. (suc k, got zero_addr);
  strerror = λ n. [];
  family_name = λ f. [];
}

abbrev pub silent : Resolver ℕ
silent = record {
  getaddrinfo = λ host family k. (k, again);
  getnameinfo = λ a k. (k, again);
  gethostbyname = λ host k. (k, again);
  is_dotted = λ host. true;
  ip_address = λ a. [];
  inet_ntoa = λ a. [];
  gai_strerror = λ n. [];
}

abbrev pub client : SslConn
client = record { conn = record new_conn { fd = some 5; family = inet }; ssl = true }

client-quiet : (ssl_connect willing listener silent 0 client no_error).error.event_flag ≡ false
unfolding ssl_connect Tcp.connect
client-quiet = refl

ssl_connect-IsUp_example :
    IsUp willing listener silent 0 client (ssl_connect willing listener silent 0 client no_error)
ssl_connect-IsUp_example =
    ssl_connect-IsUp willing listener silent 0 client no_error refl refl client-quiet

-- ===== src/Tests/DatagramTests.antt =====
-- IPComm.cc, Sendto: the theorem on a concrete datagram.
use ip_utils.Base.{none, List, [], ◌∷◌, ◌++◌, Bytes, length, min}
use ip_utils.Net.{new_conn, got, inet, Conn}
use ip_utils.Net.Datagram.{sendto, Datagrams}

-- A network that takes at most four bytes of a datagram. A message is its text.
abbrev net : Datagrams (List Bytes) Bytes
net = record {
  recvfrom = λ k fd n. (k, got ([], new_conn.sockaddr));
  sendto = λ k fd bs to. (k ++ (bs ∷ []), got (min 4 (length bs)));
  recvmsg = λ k fd flags. (k, got (0, []));
  sendmsg = λ k fd msg flags. (k, got (length msg));
  getsockopt = λ k fd level name n. (k, got []);
  setsockopt = λ k fd level name value. (k, none);
  strerror = λ n. [];
}

abbrev peer : Conn
peer = record new_conn { family = inet }

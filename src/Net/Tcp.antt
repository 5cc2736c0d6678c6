-- ===== src/Net/Tcp.antt =====
-- TCPConn.cc: Connect, Bind, Listen, Accept and Getsockname.
use ip_utils.Base.{
  ℕ, true, not, ◌&&◌, ◌||◌, Option, none, some, ◌∷◌, ◌++◌, if◌then◌else◌, Bytes, codes, decimal,
}
use ip_utils.ErrorHandler.{ErrorHandler, append_msg}
use ip_utils.Net.{
  new_conn, same_errno, is_unspec, software_event, io_event, port, set_port, set_address_family,
  hostname, Errno, eagain, econnrefused, etimedout, einprogress, einval, Result, got, failed,
  Family, inet, inet6, SockAddr, Conn,
}
use ip_utils.Net.Resolve.{dns_retries, resolve_dns_name, init_conn, Resolver}

-- The calls on sockets. accept(2) also stores the family and the address of the peer.
pub record Sockets (K : Type 0) : Type 0 where
  pub connect : K → Option ℕ → SockAddr → K × Option Errno
  pub bind : K → Option ℕ → SockAddr → K × Option Errno
  pub listen : K → Option ℕ → ℕ → K × Option Errno
  pub accept : K → Option ℕ → K × Result ℕ × Family × SockAddr
  pub getsockname : K → Option ℕ → K × Result SockAddr
  pub strerror : Errno → Bytes
  -- `%d` of an address family.
  pub family_name : Family → Bytes

pub record Done (K : Type 0) : Type 0 where
  pub kernel : K
  pub conn : Conn
  pub error : ErrorHandler

module _ {K : Type 0} (os : Sockets K) (net : Resolver K) where
  abbrev family_event : ErrorHandler → Bytes → Family → ErrorHandler
  family_event e routine family = software_event e (
      codes "TCPConn::"
      ++ (routine
          ++ (codes "(): unknown address_family: " ++ (os.family_name family ++ codes "."))))

  abbrev connect_event : ErrorHandler → Conn → Bytes → Errno → ErrorHandler
  connect_event e c peer errno = io_event e (
      codes "TCPConn::Connect(void): connect("
      ++ (peer ++ (b':' ∷ (decimal (port c) ++ (codes "): " ++ os.strerror errno)))))

  -- What a failed connect(2) does.
  abbrev pub refused : ErrorHandler → Conn → Errno → ErrorHandler
  refused e c errno =
      if c.blocking && (same_errno errno econnrefused || same_errno errno etimedout)
      then connect_event e c (hostname net.ip_address c) errno
      else if not c.blocking && same_errno errno einprogress
      then e
      else if same_errno errno einval
      then io_event e (
          codes "TCPConn::Connect(void): connect("
          ++ (net.ip_address c.sockaddr
              ++ (b':'
                  ∷ (decimal (port c)
                      ++ (codes "), family "
                          ++ (os.family_name c.family ++ (codes ": " ++ os.strerror errno)))))))
      else connect_event e c (net.ip_address c.sockaddr) errno

  abbrev pub connected_by : Conn → ErrorHandler → K × Option Errno → Done K
  connected_by c e (k, none) = record {
    kernel = k;
    conn = record c { connected = true };
    error = e;
  }
  connected_by c e (k, some errno) = record { kernel = k; conn = c; error = refused e c errno }

  abbrev pub connect_in : Family → K → Conn → ErrorHandler → Done K
  connect_in inet k c e = connected_by c e (os.connect k c.fd c.sockaddr)
  connect_in inet6 k c e = connected_by c e (os.connect k c.fd c.sockaddr)
  connect_in family k c e = record {
    kernel = k;
    conn = c;
    error = family_event e (codes "Connect") family;
  }

  -- `TCPConn::Connect(void)`
  unfoldable pub connect : K → Conn → ErrorHandler → Done K
  unfolding hostname port
  connect k c e = connect_in c.family k c e

  -- `TCPConn::Connect(host, port, address_family)`
  unfoldable pub connect_to : K → Conn → ErrorHandler → Bytes → ℕ → Family → Done K
  unfolding connect init_conn set_port
  connect_to k c e host port family =
      let r = init_conn net k c e host family dns_retries in
      let (c', e') = set_port r.conn r.error port in
      if e'.event_flag
      then record {
        kernel = r.kernel;
        conn = c';
        error = append_msg e' (
            some (
              codes "TCPConn::Connect("
              ++ (host
                  ++ (codes ", "
                      ++ (decimal port ++ (codes ", " ++ (os.family_name family ++ codes ")")))))));
      }
      else connect r.kernel c' e'

  abbrev bound : Conn → ErrorHandler → K × Option Errno → Done K
  bound c e (k, none) = record { kernel = k; conn = c; error = e }
  bound c e (k, some errno) = record {
    kernel = k;
    conn = c;
    error = io_event e (
        codes "TCPConn::Bind(): bind(" ++ (decimal (port c) ++ (codes "): " ++ os.strerror errno)));
  }

  abbrev bind_in : Family → K → Conn → ErrorHandler → Done K
  bind_in inet k c e = bound c e (os.bind k c.fd c.sockaddr)
  bind_in inet6 k c e = bound c e (os.bind k c.fd c.sockaddr)
  bind_in family k c e = record {
    kernel = k;
    conn = c;
    error = family_event e (codes "Bind") family;
  }

  -- `TCPConn::Bind(void)` and `TCPConn::Bind(port)`
  unfoldable pub bind : K → Conn → ErrorHandler → Done K
  unfolding port
  bind k c e = bind_in c.family k c e

  unfoldable pub bind_port : K → Conn → ErrorHandler → ℕ → Done K
  unfolding bind set_port
  bind_port k c e port = let (c', e') = set_port c e port in bind k c' e'

  abbrev heard : Family → Conn → ErrorHandler → K × Option Errno → Done K
  heard family c e (k, some errno) = record {
    kernel = k;
    conn = c;
    error = io_event e (
        codes "TCPConn::Listen(): listen("
        ++ (decimal (port c) ++ (codes "): " ++ os.strerror errno)));
  }
  heard inet c e (k, none) = record { kernel = k; conn = record c { listening = true }; error = e }
  heard inet6 c e (k, none) = record { kernel = k; conn = record c { listening = true }; error = e }
  heard family c e (k, none) = record {
    kernel = k;
    conn = record c { listening = true };
    error = family_event e (codes "Listen") family;
  }

  -- `TCPConn::Listen`
  unfoldable pub listen : K → Conn → ErrorHandler → ℕ → Done K
  unfolding port
  listen k c e backlog = heard c.family c e (os.listen k c.fd backlog)

  abbrev pub accept_event : ErrorHandler → Conn → Errno → ErrorHandler
  accept_event e c errno =
      if not c.blocking && same_errno errno eagain
      then io_event e (
          codes "TCPConn::Accept(): accept(): "
          ++ (os.strerror errno
              ++ codes ", Note, Accept() expects the fd to be ready via poll(2)!"))
      else io_event e (codes "TCPConn::Accept(): accept(): " ++ os.strerror errno)

  -- The client's object behind accept(2): its new descriptor, and its name by the resolver.
  abbrev pub taken : Conn → Conn → ErrorHandler → K × Result ℕ × Family × SockAddr → Done K
  taken c client e (k, failed errno, family, peer) = record {
    kernel = k;
    conn = record (set_address_family client family) { sockaddr = peer };
    error = accept_event e c errno;
  }
  taken c client e (k, got fd, family, peer) =
      let client' = record (set_address_family client family) {
        sockaddr = peer;
        fd = some fd;
        connected = true;
        blocking = c.blocking && client.blocking;
      } in
      let r = resolve_dns_name net k client' e dns_retries in
      record { kernel = r.kernel; conn = r.conn; error = r.error }

  abbrev pub accept_in : Family → K → Conn → Conn → ErrorHandler → Done K
  accept_in inet k c client e = taken c client e (os.accept k c.fd)
  accept_in inet6 k c client e = taken c client e (os.accept k c.fd)
  accept_in family k c client e = record {
    kernel = k;
    conn = client;
    error = family_event e (codes "Accept") family;
  }

  -- `TCPConn::Accept(client)`, with the client's object that it leaves, and `TCPConn::Accept(void)`.
  unfoldable pub accept : K → Conn → Conn → ErrorHandler → Done K
  unfolding set_address_family resolve_dns_name
  accept k c client e = accept_in c.family k c client e

  unfoldable pub accept_new : K → Conn → ErrorHandler → Done K
  unfolding accept
  accept_new k c e = accept k c new_conn e

  abbrev name_read : ErrorHandler → K × Result SockAddr → K × Option SockAddr × ErrorHandler
  name_read e (k, got a) = (k, some a, e)
  name_read e (k, failed errno) =
      (k, none, io_event e (codes "TCPConn::Getsockname(): getsockname(): " ++ os.strerror errno))

  -- `TCPConn::Getsockname`
  unfoldable pub getsockname : K → Conn → ErrorHandler → K × Option SockAddr × ErrorHandler
  getsockname k c e =
      if is_unspec c.family
      then (k, none, software_event e (codes "TCPConn::Getsockname(): address_family is AF_UNSPEC"))
      else if not c.connected
      then (k, none, software_event e (codes "TCPConn::Getsockname(): socket not connected"))
      else name_read e (os.getsockname k c.fd)

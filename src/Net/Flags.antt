-- ===== src/Net/Flags.antt =====
-- IPComm.cc: Socket and the routines that set the flags of an open socket; TCPConn.cc: Close.
pub mod Mode
use ip_utils.Base.{
  ℕ, Bool, true, false, not, Option, none, some, ◌++◌, if◌then◌else◌, Bytes, codes, print_int,
}
use ip_utils.ErrorHandler
use ip_utils.ErrorHandler.{ErrorHandler}
use ip_utils.Net.{software_event, io_event, Errno, Result, got, failed, FileFlags, Conn, Kernel}

pub record Ran (K : Type 0) : Type 0 where
  pub kernel : K
  pub conn : Conn
  pub error : ErrorHandler

module _ {K : Type 0} (os : Kernel K) where
  abbrev no_socket : K → Conn → ErrorHandler → Bytes → Ran K
  no_socket k c e routine = record {
    kernel = k;
    conn = c;
    error = software_event e (codes "IPComm::" ++ (routine ++ codes "(): descriptor is NULL"));
  }

  abbrev fcntl_failed : K → Conn → ErrorHandler → Bytes → Errno → Ran K
  fcntl_failed k c e call errno = record {
    kernel = k;
    conn = c;
    error = io_event e (codes "IPComm::" ++ (call ++ os.strerror errno));
  }

  -- Behind a call of fcntl(2) that sets flags.
  abbrev set_done : Conn → Conn → ErrorHandler → Bytes → K × Option Errno → Ran K
  set_done c c' e call (k, none) = record { kernel = k; conn = c'; error = e }
  set_done c c' e call (k, some errno) = fcntl_failed k c e call errno

  abbrev pub blocking_set : Conn → ErrorHandler → Option ℕ → K × Result FileFlags → Ran K
  blocking_set c e fd (k, failed errno) =
      fcntl_failed k c e (codes "set_socket_blocking(): fcntl(F_GETFL): ") errno
  blocking_set c e fd (k, got val) =
      let c' = record c { blocking = true } in
      if not val.nonblock
      then set_done c c' e (codes "set_socket_blocking(): fcntl(F_SETFL): ")
          (os.setfl k fd (record val { nonblock = false }))
      else record { kernel = k; conn = c'; error = e }

  abbrev pub blocking_at : K → Conn → ErrorHandler → Option ℕ → Ran K
  blocking_at k c e none = no_socket k c e (codes "set_socket_blocking")
  blocking_at k c e (some fd) = blocking_set c e (some fd) (os.getfl k (some fd))

  unfoldable pub set_socket_blocking : K → Conn → ErrorHandler → Ran K
  set_socket_blocking k c e = blocking_at k c e c.fd

  abbrev pub nonblocking_set : Conn → ErrorHandler → Option ℕ → K × Result FileFlags → Ran K
  nonblocking_set c e fd (k, failed errno) =
      fcntl_failed k c e (codes "set_socket_nonblocking(): fcntl(F_GETFL): ") errno
  nonblocking_set c e fd (k, got val) =
      let c' = record c { blocking = false } in
      if not val.nonblock
      then set_done c c' e (codes "set_socket_nonblocking(): fcntl(F_SETFL): ")
          (os.setfl k fd (record val { nonblock = true }))
      else record { kernel = k; conn = c'; error = e }

  abbrev pub nonblocking_at : K → Conn → ErrorHandler → Option ℕ → Ran K
  nonblocking_at k c e none = no_socket k c e (codes "set_socket_nonblocking")
  nonblocking_at k c e (some fd) = nonblocking_set c e (some fd) (os.getfl k (some fd))

  unfoldable pub set_socket_nonblocking : K → Conn → ErrorHandler → Ran K
  set_socket_nonblocking k c e = nonblocking_at k c e c.fd

  abbrev pub open_at : K → Conn → ErrorHandler → Option ℕ → Ran K
  open_at k c e none = no_socket k c e (codes "set_socket_open_on_exec")
  open_at k c e (some fd) =
      set_done c (record c { close_on_exec = false }) e
        (codes "set_socket_open_on_exec(): fcntl(" ++ (print_int fd ++ codes ", F_SETFD, 0): "))
        (os.setfd k (some fd) false)

  unfoldable pub set_socket_open_on_exec : K → Conn → ErrorHandler → Ran K
  set_socket_open_on_exec k c e = open_at k c e c.fd

  abbrev pub close_at : K → Conn → ErrorHandler → Option ℕ → Ran K
  close_at k c e none = no_socket k c e (codes "set_socket_close_on_exec")
  close_at k c e (some fd) =
      set_done c (record c { close_on_exec = true }) e
        (codes "set_socket_close_on_exec(): fcntl(" ++ (print_int fd ++ codes ", F_SETFD, 1): "))
        (os.setfd k (some fd) true)

  unfoldable pub set_socket_close_on_exec : K → Conn → ErrorHandler → Ran K
  set_socket_close_on_exec k c e = close_at k c e c.fd

  abbrev pub set_mode : Bool → K → Conn → ErrorHandler → Ran K
  set_mode true k c e = set_socket_blocking k c e
  set_mode false k c e = set_socket_nonblocking k c e

  abbrev pub set_exec : Bool → K → Conn → ErrorHandler → Ran K
  set_exec false k c e = set_socket_open_on_exec k c e
  set_exec true k c e = set_socket_close_on_exec k c e

  abbrev pub opened : Conn → ErrorHandler → Bytes → K × Result ℕ → Ran K
  opened c e call (k, failed errno) = record {
    kernel = k;
    conn = record c { fd = none };
    error =
        io_event e
          (codes "IPComm::Socket(): socket(" ++ (call ++ (codes "): " ++ os.strerror errno)));
  }
  opened c e call (k, got fd) =
      let r = set_mode c.blocking k (record c { fd = some fd }) e in
      set_exec r.conn.close_on_exec r.kernel r.conn r.error

  -- `IPComm::Socket`
  unfoldable pub socket : K → Conn → ErrorHandler → ℕ → ℕ → ℕ → Ran K
  unfolding set_socket_blocking set_socket_nonblocking set_socket_open_on_exec
      set_socket_close_on_exec
  socket k c e domain kind protocol =
      opened c e
        (print_int domain ++ (codes ", " ++ (print_int kind ++ (codes ", " ++ print_int protocol))))
        (os.socket k domain kind protocol)

  -- `IPComm::Close`, whose failures are only logged.
  abbrev closed_at : K → Conn → Option ℕ → K × Conn
  closed_at k c none = (k, c)
  closed_at k c (some fd) = (os.close k (some fd), record c { fd = none })

  -- `TCPConn::Close`
  unfoldable pub close : K → Conn → K × Conn
  close k c =
      let (k', c') = closed_at k c c.fd in (k', record c' { connected = false; listening = false })

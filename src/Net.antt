-- ===== src/Net.antt =====
-- IPComm.cc, IPComm.h, TCPConn.h: a connection, what it asks of the kernel, and its small
-- operations. A call of the system takes the state of the kernel and gives the next one.
pub mod Flags
pub mod Write
pub mod Read
pub mod Line
pub mod Resolve
pub mod Tcp
pub mod Checksum
pub mod Tls
pub mod Datagram
pub mod Shared
use ip_utils.Base.{
  ℕ, ◌%◌, ◌^◌, Bool, true, false, Option, none, some, List, [], ◌∷◌, Bytes, codes, cstr, print_int,
}
use ip_utils.ErrorHandler
use ip_utils.ErrorHandler.{ErrorHandler, ex_software, ex_ioerr}

-- The values of `errno` that the code tells apart.
pub data Errno : Type 0 where
  eagain econnrefused etimedout einprogress einval : Errno
  other_errno : ℕ → Errno

-- What a system call returns: a result, or -1 with a value of `errno`.
pub data Result {ℓ} (A : Type ℓ) : Type ℓ where
  got : A → Result A
  failed : Errno → Result A

-- `AF_INET`, `AF_INET6` and every other value of an address family.
pub data Family : Type 0 where
  inet inet6 unspec : Family
  other_family : ℕ → Family

-- The union `sockaddr_`: the port, in the order of the host, and the address.
pub record SockAddr : Type 0 where
  pub port : ℕ
  pub address : Bytes

abbrev pub zero_addr : SockAddr
zero_addr = record { port = 0; address = [] }

-- The flags that fcntl(F_GETFL) gives: O_NONBLOCK, and the other bits.
pub record FileFlags : Type 0 where
  pub nonblock : Bool
  pub others : ℕ

-- The data of IPComm and TCPConn. `none` is DESCRIPTOR_NULL.
pub record Conn : Type 0 where
  pub fd : Option ℕ
  pub blocking : Bool
  pub close_on_exec : Bool
  pub family : Family
  pub sockaddr : SockAddr
  pub dns_names : List Bytes
  pub connected : Bool
  pub listening : Bool

-- The constructors of IPComm and TCPConn.
abbrev pub new_conn : Conn
new_conn = record {
  fd = none;
  blocking = true;
  close_on_exec = false;
  family = unspec;
  sockaddr = zero_addr;
  dns_names = [];
  connected = false;
  listening = false;
}

-- The system calls and library functions that a connection makes.
pub record Kernel (K : Type 0) : Type 0 where
  pub write : K → Option ℕ → Bytes → K × Result ℕ
  pub read : K → Option ℕ → ℕ → K × Result Bytes
  pub getfl : K → Option ℕ → K × Result FileFlags
  pub setfl : K → Option ℕ → FileFlags → K × Option Errno
  -- fcntl(F_SETFD)
  pub setfd : K → Option ℕ → Bool → K × Option Errno
  pub socket : K → ℕ → ℕ → ℕ → K × Result ℕ
  pub close : K → Option ℕ → K
  pub strerror : Errno → Bytes

-- `%d` of a file descriptor.
abbrev pub print_fd : Option ℕ → Bytes
print_fd none = codes "-1"
print_fd (some fd) = print_int fd

abbrev pub same_errno : Errno → Errno → Bool
same_errno eagain eagain = true
same_errno econnrefused econnrefused = true
same_errno etimedout etimedout = true
same_errno einprogress einprogress = true
same_errno einval einval = true
same_errno a b = false

abbrev pub is_unspec : Family → Bool
is_unspec unspec = true
is_unspec f = false

abbrev pub software_event : ErrorHandler → Bytes → ErrorHandler
software_event e text = ErrorHandler.init e ex_software (some text)

abbrev pub io_event : ErrorHandler → Bytes → ErrorHandler
io_event e text = ErrorHandler.init e ex_ioerr (some text)

-- `IPComm::port`
abbrev port_of : Family → ℕ → ℕ
port_of inet port = port
port_of inet6 port = port
port_of f port = 0

unfoldable pub port : Conn → ℕ
port c = port_of c.family c.sockaddr.port

abbrev with_port : Family → Conn → ErrorHandler → ℕ → Conn × ErrorHandler
with_port inet c e port = (record c { sockaddr = record c.sockaddr { port = port % 2 ^ 16 } }, e)
with_port inet6 c e port = (record c { sockaddr = record c.sockaddr { port = port % 2 ^ 16 } }, e)
with_port unspec c e port =
    (c, software_event e (codes "IPComm::set_port(): address_family is AF_UNSPEC"))
with_port (other_family n) c e port = (c, e)

-- `IPComm::set_port`
unfoldable pub set_port : Conn → ErrorHandler → ℕ → Conn × ErrorHandler
set_port c e port = with_port c.family c e port

-- `IPComm::set_address_family`
unfoldable pub set_address_family : Conn → Family → Conn
set_address_family c family = record c { family = family }

unfoldable pub set_connected : Conn → Bool → Conn
set_connected c connected = record c { connected = connected }

-- `IPComm::hostname`; `ip_address` is the print of the address by inet_ntop.
unfoldable pub hostname : (SockAddr → Bytes) → Conn → Bytes
hostname ip_address c = elim c.dns_names [ [] ↦ ip_address c.sockaddr | name ∷ names ↦ cstr name ]

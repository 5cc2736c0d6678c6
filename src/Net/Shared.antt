-- ===== src/Net/Shared.antt =====
-- IPComm.cc, TCPConn.cc, SSLConn.cc: connections that are copied. The copies share a Descriptor,
-- whose count says how many there are, and an SSL object that is freed with it. An operation is
-- `none` where the code reads a deleted Descriptor, or uses or frees a freed SSL object.
pub mod Counts
pub mod Keeps
pub mod Runs
use ip_utils.Base.{
  ℕ, ◌+◌, ◌%◌, ◌-◌, ◌^◌, Bool, true, false, Option, none, some, List, [], ◌∷◌, ◌++◌, ◌==◌,
  if◌then◌else◌, Bytes,
}
use ip_utils.File.{◌>>=◌, put, allocate, share, Descriptor, Heap}
use ip_utils.Net.{new_conn, zero_addr, Family, unspec, SockAddr, Conn}

-- The data of an SSLConn and its bases: `descriptor` is the address of the Descriptor, `ssl` that
-- of the SSL object, and `certificate` is whether it keeps a certificate of the peer.
pub record Handle : Type 0 where
  pub blocking : Bool
  pub close_on_exec : Bool
  pub family : Family
  pub sockaddr : SockAddr
  pub dns_names : List Bytes
  pub connected : Bool
  pub listening : Bool
  pub descriptor : ℕ
  pub ssl : Option ℕ
  pub certificate : Bool

-- The heap of descriptors, the SSL objects that are not freed, and the address of the next one.
pub record World : Type 0 where
  pub heap : Heap
  pub alive : ℕ → Bool
  pub next : ℕ

abbrev pub new_handle : ℕ → Handle
new_handle a = record {
  blocking = true;
  close_on_exec = false;
  family = unspec;
  sockaddr = zero_addr;
  dns_names = [];
  connected = false;
  listening = false;
  descriptor = a;
  ssl = none;
  certificate = false;
}

abbrev allocated : World → ℕ × Heap → Handle × World
allocated w (a, heap) = (new_handle a, record w { heap = heap })

-- The constructors of IPComm, TCPConn and SSLConn.
unfoldable pub construct : World → Handle × World
unfolding allocate
construct w = allocated w (allocate w.heap)

-- `IPComm::Close`: close(2), whose failures are only logged.
abbrev pub close_fd : ℕ → Heap → Descriptor → Option ℕ → Heap
close_fd a w d none = w
close_fd a w d (some fd) =
    put (record w { closed = w.closed ++ (fd ∷ []) }) a (some (record d { fd = none }))

abbrev pub releasing : ℕ → Heap → Option Descriptor → Option Heap
releasing a w none = none
releasing a w (some d) =
    let d' : Descriptor = record d { cnt = (d.cnt + (2 ^ 32 - 1)) % 2 ^ 32 } in
    let w' = put w a (some d') in
    if d'.cnt == 0 then some (put (close_fd a w' d' d'.fd) a none) else some w'

-- The destructor of IPComm, whose body the assignment and `clear` repeat.
unfoldable pub release : ℕ → Heap → Option Heap
release a w = releasing a w (w.cells a)

abbrev pub freed : ℕ → World → World
freed x w = record w { alive = λ y. if y == x then false else w.alive y }

abbrev pub freeing : ℕ → World → Option Descriptor → Option World
freeing x w none = none
freeing x w (some d) = if d.cnt == 1 then (if w.alive x then some (freed x w) else none) else some w

-- `if (ssl_ != NULL && descriptor_->cnt_ == 1) SSL_free(ssl_);`
abbrev pub free_last : ℕ → Option ℕ → World → Option World
free_last a none w = some w
free_last a (some x) w = freeing x w (w.heap.cells a)

abbrev pub with_heap : World → Option Heap → Option World
with_heap w none = none
with_heap w (some heap) = some (record w { heap = heap })

-- The destructors of SSLConn, TCPConn and IPComm.
unfoldable pub destroy : Handle → World → Option World
unfolding release
destroy h w = do w' ← free_last h.descriptor h.ssl w; with_heap w' (release h.descriptor w'.heap)

-- `SSLConn::clear`
unfoldable pub clear : Handle → World → Option (Handle × World)
unfolding destroy construct
clear h w = do w' ← destroy h w; some (construct w')

-- `TCPConn::Close` of a connection, whose descriptor its copies keep.
abbrev pub closing : Handle → World → Option Descriptor → Option (Handle × World)
closing h w none = none
closing h w (some d) = some (
  record h { connected = false; listening = false },
  record w { heap = close_fd h.descriptor w.heap d d.fd },
)

unfoldable pub close : Handle → World → Option (Handle × World)
close h w = closing h w (w.heap.cells h.descriptor)

-- `SSLConn::Socket` where socket(2) gives `fd`; with TLS the connection gets a new SSL object.
abbrev pub opening : Handle → World → ℕ → Bool → Option Descriptor → Option (Handle × World)
opening h w fd tls none = none
opening h w fd true (some d) = some (
  record h { ssl = some w.next },
  record {
    heap = put w.heap h.descriptor (some (record d { fd = some fd }));
    alive = λ y. if y == w.next then true else w.alive y;
    next = w.next + 1;
  },
)
opening h w fd false (some d) =
    some (h, record w { heap = put w.heap h.descriptor (some (record d { fd = some fd })) })

unfoldable pub open_socket : Handle → World → ℕ → Bool → Option (Handle × World)
open_socket h w fd tls = opening h w fd tls (w.heap.cells h.descriptor)

-- SSL_get_peer_certificate(3) is a parameter: whether the peer of an SSL object has one.
module _ (peer_has_one : ℕ → Bool) where
  -- The certificate that a copy of `ssl_` asks for.
  abbrev pub asked : Option ℕ → World → Option Bool
  asked none w = some false
  asked (some x) w = if w.alive x then some (peer_has_one x) else none

  -- The copy constructors.
  unfoldable pub copy : Handle → World → Option (Handle × World)
  unfolding share
  copy src w = do
    w' ← with_heap w (share src.descriptor w.heap)
    certificate ← asked src.ssl w'
    some (record src { certificate = certificate }, w')

  -- The assignments: SSLConn frees its SSL object and takes the other one, then IPComm releases
  -- the old Descriptor and shares the other one.
  unfoldable pub assign : Handle → Handle → World → Option (Handle × World)
  unfolding release share
  assign h src w = do
    w' ← free_last h.descriptor h.ssl w
    certificate ← asked src.ssl w'
    u ← with_heap w' (release h.descriptor w'.heap)
    v ← with_heap u (share src.descriptor u.heap)
    some (record src { certificate = certificate }, v)

-- ===== src/Net/Datagram.antt =====
-- IPComm.cc: the options of a socket, and the calls for datagrams and messages.
pub mod Outcomes
use mathlib.Core.Path.{subst}
use ip_utils.Base.{
  ℕ, zero, suc, ◌+◌, ◌≤◌, ◌<◌, ◌≡◌, refl, ap, ◌∙◌, ◌⊎◌, inl, inr, true, false, not, ◌&&◌, Option,
  none, some, ◌++◌, arith, leb, ltb, if◌then◌else◌, Bool-cases, Bytes, codes, length, decimal,
  print_int, ◌%◌, ◌^◌,
}
use ip_utils.ErrorHandler
use ip_utils.ErrorHandler.{ErrorHandler}
use ip_utils.Net.{
  print_fd, same_errno, is_unspec, io_event, software_event, Errno, eagain, Result, got, failed,
  Family, inet, inet6, unspec, other_family, SockAddr, Conn,
}
use ip_utils.Net.Write.{Wrote, Result-cases}

-- The system calls; `Msg` is a msghdr, the level and the name of an option are numbers.
pub record Datagrams (K Msg : Type 0) : Type 0 where
  pub recvfrom : K → Option ℕ → ℕ → K × Result (Bytes × SockAddr)
  pub sendto : K → Option ℕ → Bytes → SockAddr → K × Result ℕ
  pub recvmsg : K → Option ℕ → ℕ → K × Result (ℕ × Msg)
  pub sendmsg : K → Option ℕ → Msg → ℕ → K × Result ℕ
  pub getsockopt : K → Option ℕ → ℕ → ℕ → ℕ → K × Result Bytes
  pub setsockopt : K → Option ℕ → ℕ → ℕ → Bytes → K × Option Errno
  pub strerror : Errno → Bytes

-- What came in; `count` is `none` where it is -1.
pub record Came (K A : Type 0) : Type 0 where
  pub kernel : K
  pub error : ErrorHandler
  pub item : Option A
  pub count : Option ℕ

-- What a send comes to. `behind` is a read behind the end of the buffer, `over` is fuel that ran
-- out.
pub data Sent (K : Type 0) : Type 0 where
  over : Sent K
  behind : K → Sent K
  sent : Wrote K → Sent K

module _ {K Msg : Type 0} (os : Datagrams K Msg) where
  abbrev pub datagram_failed : ErrorHandler → Conn → Bytes → Errno → ErrorHandler
  datagram_failed e c call errno = io_event e (
      codes "IPComm::"
      ++ (call ++ (codes "(fd: " ++ (print_fd c.fd ++ (codes ") failed: " ++ os.strerror errno)))))

  -- Where `n` is -1: no more to do on EAGAIN, an event else.
  abbrev none_came : {A : Type 0} → Conn → ErrorHandler → Bytes → K → Errno → Came K A
  none_came c e call k errno =
      if not c.blocking && same_errno errno eagain
      then record { kernel = k; error = e; item = none; count = none }
      else record {
        kernel = k;
        error = datagram_failed e c call errno;
        item = none;
        count = some 0;
      }

  -- `IPComm::Recvfrom`
  unfoldable pub recvfrom : K → Conn → ErrorHandler → ℕ → Came K (Bytes × SockAddr)
  recvfrom k c e len =
      let (k', r) = os.recvfrom k c.fd len in
      elim r [
        | failed errno ↦ none_came c e (codes "Recvfrom(): rcvfrom") k' errno
        | got came ↦ record {
          kernel = k';
          error = e;
          item = some came;
          count = some (length came.0);
        }
      ]

  -- `IPComm::Recvmsg`
  unfoldable pub recvmsg : K → Conn → ErrorHandler → ℕ → Came K Msg
  recvmsg k c e flags =
      let (k', r) = os.recvmsg k c.fd flags in
      elim r [
        | failed errno ↦ none_came c e (codes "Recvmsg(): rcvfrom") k' errno
        | got came ↦ record { kernel = k'; error = e; item = some came.1; count = some came.0 }
      ]

  -- A call of the sending loop that failed when `count` bytes were out.
  abbrev pub none_sent : Conn → ErrorHandler → Bytes → ℕ → K → Errno → Wrote K
  none_sent c e call count k errno =
      if not c.blocking && same_errno errno eagain
      then record { kernel = k; error = e; count = count }
      else record { kernel = k; error = datagram_failed e c call errno; count = 0 }

  -- The loop of Sendto, when `offset` bytes are out: each round offers `len` bytes from
  -- `buf + offset`.
  unfoldable pub sendto_loop : ℕ → K → Conn → ErrorHandler → Bytes → SockAddr → ℕ → Sent K
  sendto_loop zero k c e buf to offset = over
  sendto_loop (suc fuel) k c e buf to offset =
      let (k', r) = os.sendto k c.fd buf to in
      let next : Sent K = elim r [
        | failed errno ↦ sent (none_sent c e (codes "Sendto(): write") offset k' errno)
        | got n ↦
            let rest = sendto_loop fuel k' c e buf to (offset + n) in
            if leb (length buf) (offset + n)
            then sent (record { kernel = k'; error = e; count = offset + n })
            else rest
      ] in
      if ltb 0 offset then behind k else next

  -- The peer of the object, where the caller names none.
  abbrev pub own_peer : Family → SockAddr → (ErrorHandler → ErrorHandler) ⊎ SockAddr
  own_peer inet a = inr a
  own_peer inet6 a = inr a
  own_peer unspec a =
      inl (λ e. software_event e (codes "IPComm::Sendto(): address_family is AF_UNSPEC"))
  own_peer (other_family n) a =
      inl (λ e. software_event e (codes "IPComm::Sendto(): unknown address_family: " ++ decimal n))

  abbrev pub peer_of : Option SockAddr → Conn → (ErrorHandler → ErrorHandler) ⊎ SockAddr
  peer_of (some peer) c = inr peer
  peer_of none c = own_peer c.family c.sockaddr

  abbrev pub sendto_peer :
      ℕ → K → Conn → ErrorHandler → Bytes → (ErrorHandler → ErrorHandler) ⊎ SockAddr → Sent K
  sendto_peer fuel k c e buf (inl event) = sent (record { kernel = k; error = event e; count = 0 })
  sendto_peer fuel k c e buf (inr to) = sendto_loop fuel k c e buf to 0

  -- `IPComm::Sendto`
  unfoldable pub sendto : K → Conn → ErrorHandler → Bytes → Option SockAddr → Sent K
  unfolding sendto_loop
  sendto k c e buf new_peer = sendto_peer (length buf + 2) k c e buf (peer_of new_peer c)

  -- `IPComm::Sendmsg`: `bytes_left` starts at 0, so the loop ends behind the first call.
  unfoldable pub sendmsg : K → Conn → ErrorHandler → Msg → ℕ → Wrote K
  sendmsg k c e msg flags =
      let (k', r) = os.sendmsg k c.fd msg flags in
      elim r [
        | failed errno ↦ none_sent c e (codes "Sendmsg(): write") 0 k' errno
        | got n ↦ record { kernel = k'; error = e; count = n }
      ]

  -- The part of Getsockopt and Setsockopt before the call: the event of a socket that has no
  -- address family or no descriptor.
  abbrev no_option : Conn → ErrorHandler → Bytes → Option ErrorHandler
  no_option c e call =
      if is_unspec c.family
      then some
          (software_event e (codes "IPComm::" ++ (call ++ codes "(): address_family is AF_UNSPEC")))
      else elim c.fd [
        | none ↦
            some (software_event e (codes "IPComm::" ++ (call ++ codes "(): descriptor is NULL")))
        | some fd ↦ none
      ]

  abbrev option_event : ErrorHandler → Conn → Bytes → ℕ → ℕ → Bytes → Errno → ErrorHandler
  option_event e c call level name rest errno = io_event e (
      call
      ++ (print_fd c.fd
          ++ (codes ", "
              ++ (print_int level
                  ++ (codes ", "
                      ++ (print_int name
                          ++ (rest ++ (codes ") failed: " ++ os.strerror errno))))))))

  -- `IPComm::Setsockopt`; an option is printed with the size of an int.
  unfoldable pub setsockopt : K → Conn → ErrorHandler → ℕ → ℕ → Bytes → K × ErrorHandler
  setsockopt k c e level name value =
      let (k', r) = os.setsockopt k c.fd level name value in
      elim (no_option c e (codes "Setsockopt")) [
        | some event ↦ (k, event)
        | none ↦ elim r [
          | none ↦ (k', e)
          | some errno ↦ (
            k',
            option_event e c (codes "IPComm::Setsockopt(): setsockopt(") level name
                (codes ", option_value, 4") errno,
          )
        ]
      ]

  -- `IPComm::Getsockopt`, for a value of `len` bytes at `address`: the bytes that are stored there,
  -- and the result, which is the address cut to an int; `none` is -1.
  unfoldable pub getsockopt : K → Conn → ErrorHandler → ℕ → ℕ → ℕ → ℕ → Came K Bytes × Option ℕ
  getsockopt k c e level name address len =
      let (k', r) = os.getsockopt k c.fd level name len in
      elim (no_option c e (codes "Getsockopt")) [
        | some event ↦ (record { kernel = k; error = event; item = none; count = none }, none)
        | none ↦ elim r [
          | got value ↦ (
            record { kernel = k'; error = e; item = some value; count = none },
            some (address % 2 ^ 32),
          )
          | failed errno ↦ (
            record {
              kernel = k';
              error =
                  option_event e c (codes "IPComm::Getsockopt(): getsockopt(") level name
                    (codes ", void*, " ++ print_int len) errno;
              item = none;
              count = none;
            },
            none,
          )
        ]
      ]

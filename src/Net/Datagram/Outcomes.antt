-- ===== src/Net/Datagram/Outcomes.antt =====
-- IPComm.cc, Sendto: what it makes of each answer of sendto(2).
use ip_utils.Base.{ℕ, ◌<◌, ◌≡◌, ◌⊎◌, true, false, Option, none, some, Bytes, length}
use ip_utils.ErrorHandler
use ip_utils.ErrorHandler.{ErrorHandler}
use ip_utils.Net.{same_errno, Errno, eagain, got, failed, SockAddr, Conn}
use ip_utils.Net.Write.{Wrote}
use ip_utils.Net.Datagram.{sendto, Datagrams, Sent, behind, sent}

module _ {K Msg : Type 0} (os : Datagrams K Msg) where
  module _ (k : K) (c : Conn) (e : ErrorHandler) (buf : Bytes) where
    -- Nothing is reported as sent. No event is raised only where a non-blocking socket is not ready.
    abbrev pub NotSent : K → Errno → Wrote K → Type 0
    NotSent k' errno w =
        (w.kernel ≡ k')
        × (w.count ≡ 0)
        × (((w.error ≡ e) × (c.blocking ≡ false) × (same_errno errno eagain ≡ true))
            ⊎ (w.error.event_flag ≡ true))

    -- What the call makes of the answer of sendto(2) to the whole datagram.
    abbrev pub Answers : SockAddr → Sent K → Type 0
    Answers to s =
        let (k', r) = os.sendto k c.fd buf to in
        ((r ≡ got (length buf))
          × (s ≡ sent (record { kernel = k'; error = e; count = length buf })))
        ⊎ (((n : ℕ) × (r ≡ got n) × (0 < n) × (n < length buf) × (s ≡ behind k'))
            ⊎ ((errno : Errno) × (w : Wrote K) × (r ≡ failed errno)
                × (s ≡ sent w)
                × NotSent k' errno w))

    -- No peer: the caller names none, and the object has no address of a family that is known.
    abbrev pub NoPeer : Option SockAddr → Sent K → Type 0
    NoPeer new_peer s =
        (new_peer ≡ none)
        × (w : Wrote K) × (s ≡ sent w)
        × (w.kernel ≡ k)
        × (w.count ≡ 0)
        × (w.error.event_flag ≡ true)

    -- The peer that a datagram goes to.
    abbrev pub Peer : Option SockAddr → SockAddr → Type 0
    Peer new_peer to = (new_peer ≡ some to) ⊎ ((new_peer ≡ none) × (to ≡ c.sockaddr))

    -- Either there is no peer, or the datagram is offered to it.
    abbrev pub SendsTo : Option SockAddr → Sent K → Type 0
    SendsTo new_peer s = NoPeer new_peer s ⊎ ((to : SockAddr) × Peer new_peer to × Answers to s)

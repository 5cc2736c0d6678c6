-- ===== src/Net/Flags/Mode.antt =====
-- IPComm.cc: the flags of an open socket, and what the object says of them.
use mathlib.Core.Path.{subst}
use ip_utils.Base.{ℕ, ◌≡◌, refl, sym, Bool, true, false, Option, none, some}
use ip_utils.ErrorHandler.{ErrorHandler}
use ip_utils.Net.{got, FileFlags, Conn, Kernel}
use ip_utils.Net.Flags.{blocking_set, blocking_at, set_socket_blocking, socket}

module _ {K : Type 0} (os : Kernel K) where
  -- fcntl(2) reads and writes the flags of a descriptor and of no other, and socket(2) gives a
  -- descriptor without O_NONBLOCK. Nothing fails.
  pub record Works : Type 0 where
    pub mode : K → Option ℕ → FileFlags
    pub reads :
        (k : K) (fd : Option ℕ)
        → ((os.getfl k fd).1 ≡ got (mode k fd)) × (mode (os.getfl k fd).0 fd ≡ mode k fd)
    pub writes :
        (k : K) (fd : Option ℕ) (val : FileFlags)
        → ((os.setfl k fd val).1 ≡ none) × (mode (os.setfl k fd val).0 fd ≡ val)
    pub marks :
        (k : K) (fd : Option ℕ) (on : Bool)
        → ((os.setfd k fd on).1 ≡ none) × (mode (os.setfd k fd on).0 fd ≡ mode k fd)
    pub opens :
        (k : K) (domain kind protocol : ℕ)
        → (fd : ℕ) × ((os.socket k domain kind protocol).1 ≡ got fd)
          × ((mode (os.socket k domain kind protocol).0 (some fd)).nonblock ≡ false)

  module _ (w : Works) where
    blocking_set-mode :
        (k : K) (c : Conn) (e : ErrorHandler) (fd : Option ℕ) (on : Bool) (others : ℕ)
        → w.mode k fd ≡ record { nonblock = on; others = others }
        → let r = blocking_set os c e fd (k, got (record { nonblock = on; others = others })) in
          (r.error ≡ e)
          × (r.conn ≡ record c { blocking = true })
          × (w.mode r.kernel fd ≡ record { nonblock = on; others = others })
    blocking_set-mode k c e fd true others at = (refl, refl, at)
    blocking_set-mode k c e fd false others at =
        let (fine, wrote) = w.writes k fd (record { nonblock = false; others = others }) in
        rw fine (refl, refl, wrote)

    -- On an open descriptor, and where no call of fcntl(2) fails, `set_socket_blocking` raises no
    -- event and marks the object as blocking, and leaves the flags of the socket as they were,
    -- O_NONBLOCK included.
    pub set_socket_blocking-mode :
        (k : K) (c : Conn) (e : ErrorHandler) (fd : ℕ)
        → c.fd ≡ some fd
        → let r = set_socket_blocking os k c e in
          (r.error ≡ e)
          × (r.conn ≡ record c { blocking = true })
          × (w.mode r.kernel (some fd) ≡ w.mode k (some fd))
    unfolding set_socket_blocking
    set_socket_blocking-mode k c e fd open_fd =
        let (gives, same) = w.reads k (some fd) in
        subst
          (λ (o : Option ℕ).
            let r = blocking_at os k c e o in
            (r.error ≡ e)
            × (r.conn ≡ record c { blocking = true })
            × (w.mode r.kernel (some fd) ≡ w.mode k (some fd)))
          (sym open_fd)
          (rw gives (blocking_set-mode (os.getfl k (some fd)).0 c e (some fd) _ _ same))

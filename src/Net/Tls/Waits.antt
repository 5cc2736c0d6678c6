-- ===== src/Net/Tls/Waits.antt =====
-- SSLConn.cc: the end of a connection.
use mathlib.Core.Path.{subst}
use ip_utils.Base.{
  ℕ, ◌≡◌, ◌≢◌, refl, sym, ap, ◌⊎◌, inl, inr, Bool, true, false, not, ◌&&◌, Option, none, some,
}
use ip_utils.ErrorHandler.{ErrorHandler}
use ip_utils.Net.{Conn, Kernel}
use ip_utils.Net.Flags.{close}
use ip_utils.Net.Tls.{
  waits, shut, shut_again, shutdown_at, shutdown, SslError, SslResult, positive, nothing, negative,
  OpenSsl, SslConn, Closing,
}

module _ {K : Type 0} (os : Kernel K) (lib : OpenSsl K) where
  -- The connection that is left behind a close.
  abbrev gone : Conn → Conn
  gone c = record c { fd = none; connected = false; listening = false }

  -- The system that a shutdown hands to close(2). Without TLS, OpenSSL is not called. With TLS it is
  -- called a second time where the first call has given 0 and both directions are to be shut.
  abbrev pub Reaches : Bool → Bool → K → K → Type 0
  Reaches tls unidirectional k before =
      let (k', r) = lib.ssl_shutdown k in
      ((tls ≡ false) × (before ≡ k))
      ⊎ (((tls ≡ true)
            × ((unidirectional ≡ true) ⊎ ((code : SslError) → r ≢ nothing code))
            × (before ≡ k'))
          ⊎ ((code : SslError) × (tls ≡ true)
              × (unidirectional ≡ false)
              × (r ≡ nothing code)
              × (before ≡ (lib.ssl_shutdown k').0)))

  -- The connection is closed, by close(2) in the state `k`.
  abbrev ClosedFrom : K → Conn → ℕ → Closing K → Type 0
  ClosedFrom k c fd r = (r.conn ≡ gone c) × (r.kernel ≡ os.close k (some fd))

  close_lem :
      (k : K) (c : Conn) (fd : ℕ)
      → c.fd ≡ some fd
      → ((close os k c).1 ≡ gone c) × ((close os k c).0 ≡ os.close k (some fd))
  unfolding close
  close_lem k c fd open_fd = (simp (close, open_fd), simp (close, open_fd))

  and_false : (b : Bool) → (b && false) ≡ false
  and_false true = refl
  and_false false = refl

  shut-closes :
      (c : Conn) (e : ErrorHandler) (k : K) (fd : ℕ) (r : SslResult (Unit {0}))
      → c.fd ≡ some fd
      → c.blocking ≡ true
      → ClosedFrom k c fd (shut os lib c e (k, r))
  shut-closes c e k fd (positive u) o b = close_lem k c fd o
  shut-closes c e k fd (nothing code) o b = close_lem k c fd o
  shut-closes c e k fd (negative code) o b =
      let never : (waits code && not c.blocking) ≡ false = simp b (and_false (waits code)) in
      rw never (close_lem k c fd o)

  shut_again-Reaches :
      (unidirectional : Bool) (k : K) (r : K × SslResult (Unit {0}))
      → lib.ssl_shutdown k ≡ r
      → Reaches true unidirectional k (shut_again os lib unidirectional r).0
  shut_again-Reaches true k r made =
      inr (inl (refl, inl refl, sym (ap (λ (x : K × SslResult (Unit {0})). x.0) made)))
  shut_again-Reaches false k (k', nothing code) made =
      rw made (inr (inr (code, refl, refl, refl, refl)))
  shut_again-Reaches false k (k', positive u) made =
      rw made (inr (inl (refl, inr (λ code same. cc), refl)))
  shut_again-Reaches false k (k', negative code) made =
      rw made (inr (inl (refl, inr (λ code' same. cc), refl)))

  shutdown_at-closes :
      (tls : Bool) (fd : ℕ) (unidirectional : Bool) (k : K) (c : Conn) (e : ErrorHandler)
      → c.fd ≡ some fd
      → c.blocking ≡ true
      → let r = shutdown_at os lib tls (some fd) unidirectional k c e in
        (r.conn ≡ gone c)
        × (before : K) × Reaches tls unidirectional k before
        × (r.kernel ≡ os.close before (some fd))
  shutdown_at-closes false fd unidirectional k c e o b =
      let (left, closes) = close_lem k c fd o in (left, k, inl (refl, refl), closes)
  shutdown_at-closes true fd unidirectional k c e o b =
      let first = lib.ssl_shutdown k in
      let r = shut_again os lib unidirectional first in
      let (left, closes) = shut-closes c e r.0 fd r.1 o b in
      (left, r.0, shut_again-Reaches unidirectional k first refl, closes)

  -- On a blocking connection with a descriptor `Shutdown` closes it, with TLS or without, whatever
  -- OpenSSL answers and in how many directions it is shut: the last call to the system is close(2)
  -- of the descriptor. Before it SSL_shutdown(3) is called once with TLS, a second time where the
  -- first call has given 0 and both directions are to be shut, and not at all without TLS. The object
  -- has no descriptor and is neither connected nor listening, and the rest of it is as it was.
  pub shutdown-closes :
      (k : K) (s : SslConn) (e : ErrorHandler) (unidirectional : Bool) (fd : ℕ)
      → s.conn.fd ≡ some fd
      → s.conn.blocking ≡ true
      → let r = shutdown os lib unidirectional k s e in
        (r.conn ≡ gone s.conn)
        × (before : K) × Reaches s.ssl unidirectional k before
        × (r.kernel ≡ os.close before (some fd))
  unfolding shutdown
  shutdown-closes k s e unidirectional fd o b =
      subst
        (λ (x : Option ℕ).
          let r = shutdown_at os lib s.ssl x unidirectional k s.conn e in
          (r.conn ≡ gone s.conn)
          × (before : K) × Reaches s.ssl unidirectional k before
          × (r.kernel ≡ os.close before (some fd)))
        (sym o) (shutdown_at-closes s.ssl fd unidirectional k s.conn e o b)

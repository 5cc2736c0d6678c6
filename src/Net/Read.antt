-- ===== src/Net/Read.antt =====
-- TCPConn.cc: Read, and ReadExhaustive, which reads until the socket has no more or the peer closes.
use mathlib.Core.Path.{subst}
use ip_utils.Base.{
  ℕ, zero, suc, ◌+◌, ◌-◌, ◌≤◌, ◌<◌, ◌≡◌, refl, sym, ap, ◌∙◌, ◌⊎◌, inl, inr, Bool, true, false, not,
  ◌&&◌, Option, none, some, [], ◌∷◌, ◌++◌, append_assoc, arith, dec_lt, if◌then◌else◌, Bool-cases,
  Bytes, codes, length, length-append, is_empty,
}
use ip_utils.ErrorHandler.{ErrorHandler}
use ip_utils.Net.{
  print_fd, same_errno, software_event, io_event, Errno, eagain, got, failed, Conn, Kernel,
}
use ip_utils.Net.Write.{Result-cases}

-- `bytes` is what was stored in the buffer.
pub record Reading (K : Type 0) : Type 0 where
  pub kernel : K
  pub error : ErrorHandler
  pub bytes : Bytes
  -- `none` is -1.
  pub count : Option ℕ
  pub eof : Bool

-- What a call of ReadExhaustive comes to. `bad_format` is the undefined behaviour of its error
-- message, which formats the descriptor, a number, by `%s`; `over` is fuel that ran out.
pub data Drained (K : Type 0) : Type 0 where
  over : Drained K
  bad_format : K → Drained K
  drained : Reading K → Drained K

module _ {K : Type 0} (os : Kernel K) where
  -- `TCPConn::Read`
  unfoldable pub read : K → ErrorHandler → Conn → ℕ → Reading K
  read k e c buf_len =
      let (k', r) = os.read k c.fd buf_len in
      elim r [
        | got bs ↦ record {
          kernel = k';
          error = e;
          bytes = bs;
          count = some (length bs);
          eof = is_empty bs;
        }
        | failed errno ↦
            if not c.blocking && same_errno errno eagain
            then record { kernel = k'; error = e; bytes = []; count = some 0; eof = false }
            else record {
              kernel = k';
              error = io_event e (
                  codes "TCPConn::Read("
                  ++ (print_fd c.fd ++ (codes "): failed: " ++ os.strerror errno)));
              bytes = [];
              count = none;
              eof = false;
            }
      ]

  -- The loop of ReadExhaustive: `left` bytes of the buffer are free behind `bytes`.
  unfoldable pub read_loop : ℕ → K → ErrorHandler → Conn → Bytes → ℕ → Drained K
  read_loop zero k e c bytes left = over
  read_loop (suc fuel) k e c bytes left =
      let (k', r) = os.read k c.fd left in
      elim r [
        | failed errno ↦
            if not c.blocking && same_errno errno eagain
            then drained (record {
              kernel = k';
              error = e;
              bytes = bytes;
              count = some (length bytes);
              eof = false;
            })
            else bad_format k'
        | got bs ↦
            let rest = read_loop fuel k' e c (bytes ++ bs) (left - length bs) in
            if is_empty bs
            then drained (record {
              kernel = k';
              error = e;
              bytes = bytes;
              count = some (length bytes);
              eof = true;
            })
            else rest
      ]

  -- `TCPConn::ReadExhaustive`
  unfoldable pub read_exhaustive : K → ErrorHandler → Conn → ℕ → Drained K
  read_exhaustive k e c buf_len =
      if c.blocking
      then drained (record {
        kernel = k;
        error = software_event e (codes "TCPConn::Read(): routine called on blocking socket.");
        bytes = [];
        count = some 0;
        eof = false;
      })
      else read_loop (buf_len + 1) k e c [] buf_len

module _ {K : Type 0} (os : Kernel K) where
  -- read(2) hands out the bytes that the peer sends in their order, at most as many as are asked
  -- for, and none of them when it fails. No byte, where some were asked for, is the end of them.
  pub record Supplies : Type 0 where
    pub pending : K → Option ℕ → Bytes
    pub gave :
        (k : K) (fd : Option ℕ) (n : ℕ) (bs : Bytes)
        → (os.read k fd n).1 ≡ got bs
        → (length bs ≤ n)
          × (pending k fd ≡ bs ++ pending (os.read k fd n).0 fd)
          × (0 < n → bs ≡ [] → pending k fd ≡ [])
    pub kept :
        (k : K) (fd : Option ℕ) (n : ℕ) (errno : Errno)
        → (os.read k fd n).1 ≡ failed errno
        → pending (os.read k fd n).0 fd ≡ pending k fd

  -- The bytes in the buffer are the next ones of the stream, they fit, and they are counted. The end
  -- of the file is reported at the end of the stream or when the buffer is full.
  pub record Drains (s : Supplies) (stream : Bytes) (c : Conn) (size : ℕ) (r : Reading K)
      : Type 0 where
    pub in_order : r.bytes ++ s.pending r.kernel c.fd ≡ stream
    pub fits : length r.bytes ≤ size
    pub counted : r.count ≡ some (length r.bytes)
    pub ended : r.eof ≡ true → (s.pending r.kernel c.fd ≡ []) ⊎ (length r.bytes ≡ size)

  -- The last call of read(2) has failed because the socket has nothing to read for now.
  abbrev pub Waits : Conn → Reading K → Type 0
  Waits c r =
      (k : K) × (left : ℕ) × (errno : Errno) × ((os.read k c.fd left).1 ≡ failed errno)
      × ((not c.blocking && same_errno errno eagain) ≡ true)
      × (r.kernel ≡ (os.read k c.fd left).0)

  -- The loop has stopped at the end of the file or on EAGAIN, with what `Drains` says and with no
  -- event; or read(2) has failed, and the code formats its message.
  abbrev pub EndsWell : (s : Supplies) → ErrorHandler → Bytes → Conn → ℕ → Drained K → Type 0
  EndsWell s e stream c size d =
      ((r : Reading K) × (d ≡ drained r)
        × (r.error ≡ e)
        × Drains s stream c size r
        × ((r.eof ≡ true) ⊎ Waits c r))
      ⊎ ((k : K) × (left : ℕ) × (errno : Errno) × ((os.read k c.fd left).1 ≡ failed errno)
          × ((not c.blocking && same_errno errno eagain) ≡ false)
          × (d ≡ bad_format (os.read k c.fd left).0))

  module _ (s : Supplies) (e : ErrorHandler) (c : Conn) (size : ℕ) where
    failed-EndsWell :
        (fuel : ℕ) (k : K) (bytes : Bytes) (left : ℕ) (errno : Errno)
        → (os.read k c.fd left).1 ≡ failed errno
        → length bytes + left ≡ size
        → EndsWell s e (bytes ++ s.pending k c.fd) c size (read_loop os (suc fuel) k e c bytes left)
    unfolding read_loop
    failed-EndsWell fuel k bytes left errno fails h =
        let at = os.read k c.fd left in
        elim (Bool-cases (not c.blocking && same_errno errno eagain)) [
          | inl busy ↦ inl (
            record {
              kernel = at.0;
              error = e;
              bytes = bytes;
              count = some (length bytes);
              eof = false;
            },
            simp (read_loop, fails, busy),
            refl,
            record {
              in_order = ap (◌++◌ bytes) (s.kept k c.fd left errno fails);
              fits = omega arith;
              counted = refl;
              ended = λ p. cc;
            },
            inr (k, left, errno, fails, busy, refl),
          )
          | inr broken ↦ inr (k, left, errno, fails, broken, simp (read_loop, fails, broken))
        ]

    -- A round that reads something.
    read_some :
        (fuel : ℕ) (k : K) (bytes : Bytes) (left b : ℕ) (bs : Bytes)
        → (os.read k c.fd left).1 ≡ got (b ∷ bs)
        → read_loop os (suc fuel) k e c bytes left
          ≡ read_loop os fuel
              (os.read k c.fd left).0
              e
              c
              (bytes ++ (b ∷ bs))
              (left - length (b ∷ bs))
    unfolding read_loop
    read_some fuel k bytes left b bs gets = simp (read_loop, gets)

    read_loop-EndsWell :
        (fuel : ℕ) (k : K) (bytes : Bytes) (left : ℕ)
        → length bytes + left ≡ size
        → left < fuel
        → EndsWell s e (bytes ++ s.pending k c.fd) c size (read_loop os fuel k e c bytes left)
    unfolding read_loop
    read_loop-EndsWell zero k bytes left h f = absurd (omega arith)
    read_loop-EndsWell (suc fuel) k bytes left h f = elim (Result-cases (os.read k c.fd left).1) [
      | inr (errno, fails) ↦ failed-EndsWell fuel k bytes left errno fails h
      | inl ([], gets) ↦
          let (small, next, last) = s.gave k c.fd left [] gets in
          inl (
            record {
              kernel = (os.read k c.fd left).0;
              error = e;
              bytes = bytes;
              count = some (length bytes);
              eof = true;
            },
            simp (read_loop, gets),
            refl,
            record {
              in_order = ap (◌++◌ bytes) (sym next);
              fits = omega arith;
              counted = refl;
              ended = λ _. elim (dec_lt 0 left) [
                | yes room ↦ inl (sym next ∙ last room refl)
                | no full ↦ inr (omega arith)
              ];
            },
            inl refl,
          )
      | inl (b ∷ bs, gets) ↦
          let (small, next, last) = s.gave k c.fd left (b ∷ bs) gets in
          let after = os.read k c.fd left in
          let stream : (bytes ++ (b ∷ bs)) ++ s.pending after.0 c.fd ≡ bytes ++ s.pending k c.fd =
            append_assoc bytes (b ∷ bs) (s.pending after.0 c.fd) ∙ ap (◌++◌ bytes) (sym next) in
          subst (EndsWell s e (bytes ++ s.pending k c.fd) c size)
            (sym (read_some fuel k bytes left b bs gets))
            (subst
              (λ (x : Bytes).
                EndsWell s e x c size
                  (read_loop os fuel after.0 e c (bytes ++ (b ∷ bs)) (left - length (b ∷ bs))))
              stream
              (read_loop-EndsWell fuel after.0 (bytes ++ (b ∷ bs)) (left - length (b ∷ bs))
                (omega (arith, length-append bytes (b ∷ bs))) (omega arith)))
    ]

  -- On a non-blocking socket the loop of `ReadExhaustive` ends, in one of two ways. Either no event is
  -- raised, and what it stores is the next part of what the peer sends, in order and with nothing
  -- lost, it fits the buffer, and the result is its length; it has stopped at the end of the file,
  -- which is reported only when the peer has nothing more or the buffer is full, or because the
  -- socket had nothing to read for now. Or a call of read(2) has failed other than by EAGAIN, and the
  -- code formats the descriptor as a string.
  pub read_exhaustive-Drains :
      (s : Supplies) (k : K) (e : ErrorHandler) (c : Conn) (buf_len : ℕ)
      → c.blocking ≡ false
      → EndsWell s e (s.pending k c.fd) c buf_len (read_exhaustive os k e c buf_len)
  unfolding read_exhaustive
  read_exhaustive-Drains s k e c buf_len b =
      subst (EndsWell s e (s.pending k c.fd) c buf_len) (simp (read_exhaustive, b))
        (read_loop-EndsWell s e c buf_len (buf_len + 1) k [] buf_len (omega arith) (omega arith))

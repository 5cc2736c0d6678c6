-- ===== src/Net/Write.antt =====
-- TCPConn.cc, Write: write(2) is called until the buffer is out or the socket takes no more.
use ip_utils.Base.{
  ℕ, zero, suc, ◌+◌, ◌≤◌, ◌<◌, ◌≡◌, refl, sym, ap, ◌∙◌, ◌⊎◌, inl, inr, true, not, ◌&&◌, Option,
  none, some, ◌++◌, append_assoc, append-nil, arith, leb, if◌then◌else◌, Bool-cases, Bytes, codes,
  length, take, drop, length-drop,
}
use ip_utils.ErrorHandler
use ip_utils.ErrorHandler.{ErrorHandler}
use ip_utils.Session.Queue.Buffer.{take_two}
use ip_utils.Net.{print_fd, same_errno, io_event, Errno, eagain, Result, got, failed, Conn, Kernel}

pub record Wrote (K : Type 0) : Type 0 where
  pub kernel : K
  pub error : ErrorHandler
  pub count : ℕ

module _ {K : Type 0} (os : Kernel K) where
  abbrev write_failed : ErrorHandler → Conn → Errno → ErrorHandler
  write_failed e c errno = io_event e (
      codes "TCPConn::Write(): write(fd: "
      ++ (print_fd c.fd ++ (codes ") failed: " ++ os.strerror errno)))

  -- The loop: `left` is what stands from `buf + offset` on. `none` is fuel that ran out.
  unfoldable pub write_loop : ℕ → K → ErrorHandler → Conn → Bytes → ℕ → Option (Wrote K)
  write_loop zero k e c left sent = none
  write_loop (suc fuel) k e c left sent =
      let (k', r) = os.write k c.fd left in
      elim r [
        | failed errno ↦
            if not c.blocking && same_errno errno eagain
            then some (record { kernel = k'; error = e; count = sent })
            else some (record { kernel = k'; error = write_failed e c errno; count = 0 })
        | got n ↦
            let rest = write_loop fuel k' e c (drop n left) (sent + n) in
            if leb (length left) n
            then some (record { kernel = k'; error = e; count = sent + n })
            else rest
      ]

  unfoldable pub write : K → ErrorHandler → Conn → Bytes → Option (Wrote K)
  write k e c buf = write_loop (length buf + 1) k e c buf 0

pub Result-cases {ℓ} :
    {A : Type ℓ} (r : Result A) → ((a : A) × (r ≡ got a)) ⊎ ((n : Errno) × (r ≡ failed n))
Result-cases (got a) = inl (a, refl)
Result-cases (failed n) = inr (n, refl)

module _ {K : Type 0} (os : Kernel K) where
  -- write(2) takes a part of what it is offered, something of it where there is something, and
  -- nothing when it fails. `out` is what a descriptor has taken so far.
  pub record Accepts : Type 0 where
    pub out : K → Option ℕ → Bytes
    pub took :
        (k : K) (fd : Option ℕ) (bs : Bytes) (n : ℕ)
        → (os.write k fd bs).1 ≡ got n
        → (n ≤ length bs)
          × (0 < length bs → 0 < n)
          × (out (os.write k fd bs).0 fd ≡ out k fd ++ take n bs)
    pub kept :
        (k : K) (fd : Option ℕ) (bs : Bytes) (errno : Errno)
        → (os.write k fd bs).1 ≡ failed errno
        → out (os.write k fd bs).0 fd ≡ out k fd

  -- The descriptor has taken the first `passed` bytes behind `start`. Without an event these are
  -- counted, and on a blocking socket they are all; with one a write failed and the count is 0.
  pub record Passes (a : Accepts) (start : Bytes) (e : ErrorHandler) (c : Conn) (buf : Bytes)
      (sent : ℕ) (r : Wrote K) : Type 0 where
    pub passed : ℕ
    pub within : passed ≤ length buf
    pub taken : a.out r.kernel c.fd ≡ start ++ take passed buf
    pub outcome :
        ((r.error ≡ e) × (r.count ≡ sent + passed) × (c.blocking ≡ true → passed ≡ length buf))
        ⊎ ((r.error.event_flag ≡ true)
            × (r.count ≡ 0)
            × (k : K) × (bs : Bytes) × (errno : Errno) × ((os.write k c.fd bs).1 ≡ failed errno))

  module _ (a : Accepts) where
    failed-Passes :
        (fuel : ℕ) (k : K) (e : ErrorHandler) (c : Conn) (left : Bytes) (sent : ℕ) (errno : Errno)
        → (os.write k c.fd left).1 ≡ failed errno
        → (r : Wrote K) × (write_loop os (suc fuel) k e c left sent ≡ some r)
          × Passes a (a.out k c.fd) e c left sent r
    unfolding write_loop ErrorHandler.init
    failed-Passes fuel k e c left sent errno fails =
        let same = a.kept k c.fd left errno fails ∙ sym (append-nil (a.out k c.fd)) in
        elim (Bool-cases (not c.blocking && same_errno errno eagain)) [
          | inl busy ↦ (
            record { kernel = (os.write k c.fd left).0; error = e; count = sent },
            simp (write_loop, fails, busy),
            record {
              passed = 0;
              within = omega arith;
              taken = same;
              outcome = inl (refl, omega arith, ground arith);
            },
          )
          | inr broken ↦ (
            record {
              kernel = (os.write k c.fd left).0;
              error = write_failed os e c errno;
              count = 0;
            },
            simp (write_loop, fails, broken),
            record {
              passed = 0;
              within = omega arith;
              taken = same;
              outcome = inr (refl, refl, k, left, errno, fails);
            },
          )
        ]

    write_loop-Passes :
        (fuel : ℕ) (k : K) (e : ErrorHandler) (c : Conn) (left : Bytes) (sent : ℕ)
        → length left < fuel
        → (r : Wrote K) × (write_loop os fuel k e c left sent ≡ some r)
          × Passes a (a.out k c.fd) e c left sent r
    unfolding write_loop
    write_loop-Passes zero k e c left sent h = absurd (omega arith)
    write_loop-Passes (suc fuel) k e c left sent h = elim (Result-cases (os.write k c.fd left).1) [
      | inr (errno, fails) ↦ failed-Passes fuel k e c left sent errno fails
      | inl (n, wrote) ↦
          let (small, some_taken, taken) = a.took k c.fd left n wrote in
          elim (Bool-cases (leb (length left) n)) [
            | inl done ↦ (
              record { kernel = (os.write k c.fd left).0; error = e; count = sent + n },
              simp (write_loop, wrote, done),
              record {
                passed = n;
                within = small;
                taken = taken;
                outcome = inl (refl, refl, λ _. ground arith);
              },
            )
            | inr more ↦
                let shorter : length (drop n left) < fuel =
                  ground (arith, length-drop n left, some_taken) in
                let (r, run, p) =
                  write_loop-Passes fuel (os.write k c.fd left).0 e c (drop n left) (sent + n)
                    shorter in
                (
                  r,
                  simp (write_loop, wrote, more) run,
                  record {
                    passed = n + p.passed;
                    within = omega (arith, p.within, length-drop n left);
                    taken =
                        p.taken
                        ∙ ap (λ (x : Bytes). x ++ take p.passed (drop n left)) taken
                        ∙ append_assoc (a.out k c.fd) (take n left) (take p.passed (drop n left))
                        ∙ ap (◌++◌ (a.out k c.fd)) (take_two n p.passed left);
                    outcome = elim p.outcome [
                      | inl (same, counted, full) ↦ inl (
                        same,
                        omega (arith, counted),
                        λ b. omega (arith, full b, length-drop n left, small),
                      )
                      | inr event ↦ inr event
                    ];
                  },
                )
          ]
    ]

    -- The loop of `Write` ends: the socket has taken a first part of the buffer. Where no event is
    -- raised, the result is the length of this part, and on a blocking socket it is the whole
    -- buffer. Behind an event a write has failed, and the result is 0, whatever the
    -- socket has taken.
    pub write-Passes :
        (k : K) (e : ErrorHandler) (c : Conn) (buf : Bytes)
        → (r : Wrote K) × (write os k e c buf ≡ some r) × Passes a (a.out k c.fd) e c buf 0 r
    unfolding write
    write-Passes k e c buf = write_loop-Passes (length buf + 1) k e c buf 0 (omega arith)

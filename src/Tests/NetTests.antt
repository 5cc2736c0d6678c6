-- ===== src/Tests/NetTests.antt =====
-- IPComm.cc, TCPConn.cc, SSLConn.cc: the theorems on concrete inputs.
use ip_utils.Base.{
  ℕ, zero, suc, ◌+◌, ◌-◌, ◌/◌, ◌%◌, ◌^◌, ◌<◌, min, ◌≡◌, refl, sym, ap, ◌∙◌, true, false, none, some,
  [], ◌∷◌, ◌++◌, arith, Bytes, codes, length, take, drop, length-take, take-append-drop,
}
use ip_utils.ErrorHandler.{no_error}
use ip_utils.Net.{new_conn, got, inet, FileFlags, Conn, Kernel}
use ip_utils.Net.Write
use ip_utils.Net.Write.{Wrote, Accepts, Passes, write-Passes}
use ip_utils.Net.Read.{Supplies, EndsWell, read_exhaustive, read_exhaustive-Drains}
use ip_utils.Net.Line.{read_line, read_line-Reads, Reads}
use ip_utils.Net.Flags.{set_socket_blocking, socket}
use ip_utils.Net.Flags.Mode.{Works, set_socket_blocking-mode}
use ip_utils.Net.Resolve.{Lookup, found, again}
use ip_utils.Net.Checksum.{calculate_cksum, calculate_cksum-checks}
use ip_utils.Net.Tls.{shutdown, want_write, negative, OpenSsl}
use ip_utils.Net.Tls.Waits.{shutdown-closes, Reaches}

-- A kernel that takes two bytes at a time, and hands out what the peer has sent.
record Sim : Type 0 where
  sent : Bytes
  incoming : Bytes
  mode : FileFlags

abbrev plain_flags : FileFlags
plain_flags = record { nonblock = false; others = 2 }

abbrev sim : Kernel Sim
sim = record {
  write = λ k fd bs. let n = min 2 (length bs) in (record k { sent = k.sent ++ take n bs }, got n);
  read = λ k fd n. (record k { incoming = drop n k.incoming }, got (take n k.incoming));
  getfl = λ k fd. (k, got k.mode);
  setfl = λ k fd val. (record k { mode = val }, none);
  setfd = λ k fd on. (k, none);
  socket = λ k domain kind protocol. (record k { mode = plain_flags }, got 5);
  close = λ k fd. k;
  strerror = λ n. [];
}

abbrev start : Sim
start = record { sent = codes "x"; incoming = codes "one\r\ntwo"; mode = plain_flags }

abbrev online : Conn
online = record new_conn { fd = some 5; family = inet; connected = true }

abbrev offline : Conn
offline = record online { blocking = false }

sim-Accepts : Accepts sim
sim-Accepts = record {
  out = λ k fd. k.sent;
  took = λ k fd bs n e.
      let same : min 2 (length bs) ≡ n = cc in
      (omega (arith, same), λ h. omega (arith, same), ap (λ (m : ℕ). k.sent ++ take m bs) same);
  kept = λ k fd bs errno e. cc;
}

pub take-nil : (n : ℕ) (xs : Bytes) → 0 < n → take n xs ≡ [] → xs ≡ []
take-nil zero xs h e = absurd (omega arith)
take-nil (suc n) [] h e = refl
take-nil (suc n) (x ∷ xs) h e = cc

sim-Supplies : Supplies sim
sim-Supplies = record {
  pending = λ k fd. k.incoming;
  gave = λ k fd n bs e.
      let same : take n k.incoming ≡ bs = cc in
      (
        omega (arith, ap length same, length-take n k.incoming),
        sym (take-append-drop n k.incoming) ∙ ap (λ (x : Bytes). x ++ drop n k.incoming) same,
        λ h nil. take-nil n k.incoming h (same ∙ nil),
      );
  kept = λ k fd n errno e. cc;
}

sim-Works : Works sim
sim-Works = record {
  mode = λ k fd. k.mode;
  reads = λ k fd. (refl, refl);
  writes = λ k fd val. (refl, refl);
  marks = λ k fd on. (refl, refl);
  opens = λ k domain kind protocol. (5, refl, refl);
}

write-Passes_example :
    (r : Wrote Sim) × (Write.write sim start no_error online (codes "hello") ≡ some r)
    × Passes sim sim-Accepts (sim-Accepts.out start (some 5)) no_error online (codes "hello") 0 r
write-Passes_example = write-Passes sim sim-Accepts start no_error online (codes "hello")

read_exhaustive-Drains_example :
    EndsWell sim sim-Supplies no_error
      (sim-Supplies.pending start (some 5))
      offline
      4
      (read_exhaustive sim start no_error offline 4)
read_exhaustive-Drains_example =
    read_exhaustive-Drains sim sim-Supplies start no_error offline 4 refl

read_line-Reads_example :
    Reads sim sim-Supplies online 10 no_error
      (80 - 1)
      []
      (sim-Supplies.pending start (some 5))
      (read_line sim online 10 start no_error 80)
read_line-Reads_example =
    read_line-Reads sim sim-Supplies online 10 start no_error 80 (λ k. (take 1 k.incoming, refl))

abbrev nonblocking_start : Sim
nonblocking_start = record start { mode = record plain_flags { nonblock = true } }

set_socket_blocking-mode_example :
    let r = set_socket_blocking sim nonblocking_start offline no_error in
    (r.error ≡ no_error)
    × (r.conn ≡ record offline { blocking = true })
    × (sim-Works.mode r.kernel (some 5) ≡ sim-Works.mode nonblocking_start (some 5))
set_socket_blocking-mode_example =
    set_socket_blocking-mode sim sim-Works nonblocking_start offline no_error 5 refl

-- A resolver that answers at the third call.
abbrev third : ℕ → ℕ × Lookup ℕ
third zero = (1, again)
third (suc zero) = (2, again)
third (suc (suc k)) = (suc (suc (suc k)), found 7)

third_ticks : (k : ℕ) → (third k).0 ≡ k + 1
third_ticks zero = omega arith
third_ticks (suc zero) = omega arith
third_ticks (suc (suc k)) = omega arith

calculate_cksum-checks_example :
    (c : ℕ) × (calculate_cksum (codes "data") ≡ some c)
    × (c < 2 ^ 16)
    × (calculate_cksum (codes "data" ++ (c % 256 ∷ c / 256 ∷ [])) ≡ some 0)
calculate_cksum-checks_example =
    calculate_cksum-checks (codes "data") (omega arith) (omega arith) (omega arith)

-- A TLS library that always has to wait.
abbrev busy : OpenSsl Sim
busy = record {
  ssl_write = λ k bs. (k, negative want_write);
  ssl_read = λ k n. (k, negative want_write);
  ssl_shutdown = λ k. (k, negative want_write);
  peek_error = λ k. false;
  clear_error = λ k. k;
  set_sent = λ k. k;
  shutdown_state = λ k. (false, false);
  report = λ c k. [];
}

shutdown-closes_example :
    let r = shutdown sim busy true start (record { conn = online; ssl = true }) no_error in
    (r.conn ≡ record online { fd = none; connected = false; listening = false })
    × (before : Sim) × Reaches sim busy true true start before
    × (r.kernel ≡ sim.close before (some 5))
shutdown-closes_example =
    shutdown-closes sim busy start (record { conn = online; ssl = true }) no_error true 5 refl refl

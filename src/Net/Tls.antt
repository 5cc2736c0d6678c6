-- ===== src/Net/Tls.antt =====
-- SSLConn.cc: Write, Read, Shutdown and the tests of a shutdown. What OpenSSL does is a parameter.
pub mod Waits
pub mod Handshake
pub mod Accept
pub mod Context
use ip_utils.Base.{
  ℕ, Bool, true, false, not, ◌&&◌, ◌||◌, Option, none, some, [], ◌++◌, if◌then◌else◌, Bytes, codes,
  length, is_empty,
}
use ip_utils.ErrorHandler
use ip_utils.ErrorHandler.{ErrorHandler}
use ip_utils.Net.{software_event, Conn, Kernel}
use ip_utils.Net.Flags.{close}
use ip_utils.Net.Write
use ip_utils.Net.Write.{write, Wrote}
use ip_utils.Net.Read
use ip_utils.Net.Read.{read}

-- SSL_get_error(3)
pub data SslError : Type 0 where
  zero_return want_read want_write want_accept want_connect want_x509_lookup syscall ssl_failure :
      SslError
  other_error : ℕ → SslError

-- What SSL_write(3), SSL_read(3) and SSL_shutdown(3) return: more than 0, 0, or less than 0.
pub data SslResult {ℓ} (A : Type ℓ) : Type ℓ where
  positive : A → SslResult A
  nothing : SslError → SslResult A
  negative : SslError → SslResult A

pub record OpenSsl (K : Type 0) : Type 0 where
  pub ssl_write : K → Bytes → K × SslResult ℕ
  pub ssl_read : K → ℕ → K × SslResult Bytes
  pub ssl_shutdown : K → K × SslResult (Unit {0})
  -- ERR_peek_error(3) and ERR_clear_error(3)
  pub peek_error : K → Bool
  pub clear_error : K → K
  -- SSL_set_shutdown(ssl, SSL_SENT_SHUTDOWN)
  pub set_sent : K → K
  -- SSL_get_shutdown(3): sent, and received.
  pub shutdown_state : K → Bool × Bool
  -- The host, the descriptor and the error queue, as a message prints them.
  pub report : Conn → K → Bytes

-- An SSLConn: `ssl` is whether `ssl_` is set.
pub record SslConn : Type 0 where
  pub conn : Conn
  pub ssl : Bool

-- The result of a transfer: `count` is `none` where it is less than 0.
pub record Transfer (K : Type 0) : Type 0 where
  pub kernel : K
  pub conn : Conn
  pub error : ErrorHandler
  pub bytes : Bytes
  pub count : Option ℕ
  pub eof : Bool

pub record Closing (K : Type 0) : Type 0 where
  pub kernel : K
  pub conn : Conn
  pub error : ErrorHandler

-- The codes on which the caller has to wait.
abbrev pub waits : SslError → Bool
waits want_read = true
waits want_write = true
waits code = false

module _ {K : Type 0} (os : Kernel K) (lib : OpenSsl K) where
  abbrev tls_event : K → Conn → ErrorHandler → Bytes → ErrorHandler
  tls_event k c e routine =
      software_event e (codes "SSLConn::" ++ (routine ++ (codes "(): " ++ lib.report c k)))

  abbrev closed : K → Conn → ErrorHandler → Closing K
  closed k c e = let (k', c') = close os k c in record { kernel = k'; conn = c'; error = e }

  -- Behind SSL_shutdown(3).
  abbrev pub shut : Conn → ErrorHandler → K × SslResult (Unit {0}) → Closing K
  shut c e (k, positive u) = closed k c e
  shut c e (k, nothing code) = closed k c e
  shut c e (k, negative code) =
      if waits code && not c.blocking
      then record { kernel = k; conn = c; error = e }
      else closed k c (tls_event k c e (codes "Shutdown"))

  -- The second call, which waits for the peer, where the first one gave 0.
  abbrev pub shut_again : Bool → K × SslResult (Unit {0}) → K × SslResult (Unit {0})
  shut_again true r = r
  shut_again false (k, nothing code) = lib.ssl_shutdown k
  shut_again false (k, positive u) = (k, positive u)
  shut_again false (k, negative code) = (k, negative code)

  abbrev pub shutdown_at : Bool → Option ℕ → Bool → K → Conn → ErrorHandler → Closing K
  shutdown_at false fd unidirectional k c e = closed k c e
  shutdown_at true none unidirectional k c e = record {
    kernel = k;
    conn = c;
    error = tls_event k c e (codes "Shutdown");
  }
  shutdown_at true (some fd) unidirectional k c e =
      shut c e (shut_again unidirectional (lib.ssl_shutdown k))

  -- `SSLConn::Shutdown`
  unfoldable pub shutdown : Bool → K → SslConn → ErrorHandler → Closing K
  unfolding close
  shutdown unidirectional k s e = shutdown_at s.ssl s.conn.fd unidirectional k s.conn e

  abbrev pub moved : K → Conn → ErrorHandler → Bytes → Option ℕ → Bool → Transfer K
  moved k c e bytes count eof = record {
    kernel = k;
    conn = c;
    error = e;
    bytes = bytes;
    count = count;
    eof = eof;
  }

  -- A peer that closes answers with our own close.
  abbrev answered : Closing K → Transfer K
  answered r = moved r.kernel r.conn r.error [] (some 0) false

  -- A transfer of 0 bytes; `eof` is whether the routine reports the end of the file.
  abbrev none_moved : SslConn → ErrorHandler → Bytes → Bool → SslError → K → Transfer K
  none_moved s e routine eof zero_return k = answered (shutdown false k s e)
  none_moved s e routine eof syscall k =
      if not (lib.peek_error k)
      then moved (lib.set_sent k) s.conn e [] (some 0) eof
      else moved k s.conn (tls_event k s.conn e routine) [] (some 0) false
  none_moved s e routine eof ssl_failure k = moved k s.conn e [] (some 0) false
  none_moved s e routine eof code k =
      moved k s.conn (tls_event k s.conn e routine) [] (some 0) false

  abbrev pub failed_move : SslConn → ErrorHandler → Bytes → SslError → K → Transfer K
  failed_move s e routine want_read k = moved k s.conn e [] none false
  failed_move s e routine want_write k =
      if s.conn.blocking
      then moved k s.conn (tls_event k s.conn e routine) [] none false
      else moved k s.conn e [] none false
  failed_move s e routine code k = moved k s.conn (tls_event k s.conn e routine) [] none false

  -- The queue of errors is emptied before a transfer.
  abbrev pub fresh_queue : K → K
  fresh_queue k = if lib.peek_error k then lib.clear_error k else k

  abbrev pub written : SslConn → ErrorHandler → Bytes → K × SslResult ℕ → Transfer K
  written s e buf (k, positive n) = moved k s.conn e [] (some n) false
  written s e buf (k, nothing code) = none_moved s e (codes "Write") false code k
  written s e buf (k, negative code) = failed_move s e (codes "Write") code k

  abbrev plain_write : SslConn → Option (Wrote K) → Option (Transfer K)
  plain_write s none = none
  plain_write s (some r) = some (moved r.kernel s.conn r.error [] (some r.count) false)

  -- `SSLConn::Write`; `none` is fuel that ran out below.
  unfoldable pub ssl_write : K → SslConn → ErrorHandler → Bytes → Option (Transfer K)
  unfolding shutdown Write.write
  ssl_write k s e buf =
      if not s.ssl
      then plain_write s (Write.write os k e s.conn buf)
      else if is_empty buf
      then some (moved k s.conn e [] (some 0) false)
      else some (written s e buf (lib.ssl_write (fresh_queue k) buf))

  abbrev received : SslConn → ErrorHandler → K × SslResult Bytes → Transfer K
  received s e (k, positive bytes) = moved k s.conn e bytes (some (length bytes)) false
  received s e (k, nothing code) = none_moved s e (codes "Read") true code k
  received s e (k, negative code) = failed_move s e (codes "Read") code k

  -- `SSLConn::Read`
  unfoldable pub ssl_read : K → SslConn → ErrorHandler → ℕ → Transfer K
  unfolding shutdown Read.read
  ssl_read k s e buf_len =
      let r = Read.read os k e s.conn buf_len in
      if not s.ssl
      then moved r.kernel s.conn r.error r.bytes r.count r.eof
      else received s e (lib.ssl_read (fresh_queue k) buf_len)

-- `SSLConn::IsShutdownInitiated`, `SSLConn::IsShutdownComplete`
unfoldable pub is_shutdown_initiated : Bool × Bool → Bool
is_shutdown_initiated (sent, received) = sent || received

unfoldable pub is_shutdown_complete : Bool × Bool → Bool
is_shutdown_complete (sent, received) = sent && received

-- ===== src/Session.antt =====
-- TCPSession.cc, TCPSession.h, MsgInfo.h: the state of a session, what it asks of the system and of
-- the classes around it, and its small operations. The memory block behind a buffer pointer is the
-- list of its bytes.
pub mod Outgoing
pub mod Write
pub mod Incoming
pub mod Header
pub mod Queue
pub mod Delivery
pub mod Progress
pub mod Copy
pub mod Streaming
use ip_utils.Base.{
  ℕ, ◌+◌, ◌-◌, ◌^◌, Bool, false, ◌||◌, Option, none, some, List, [], ◌∷◌, ◌++◌, ltb, leb, ◌==◌,
  if◌then◌else◌, Bytes, codes, length, take, drop,
}
use ip_utils.ErrorHandler
use ip_utils.ErrorHandler.{ErrorHandler, append_msg, ex_software}
use ip_utils.MsgHdr.{MsgHdr}

abbrev pub default_buf_size : ℕ
default_buf_size = 4096

-- `SESSION_USE_MEM`, `SESSION_USE_DISC`
pub data Storage : Type 0 where
  use_mem use_disc : Storage

pub record MsgInfo : Type 0 where
  pub initialized : Bool
  pub storage : Storage
  pub storage_initialized : Bool
  pub msg_id : ℕ
  pub hdr_len : ℕ
  pub body_len : ℕ
  pub buf_offset : ℕ
  pub file_offset : ℕ

-- `memset(&rpending_, 0, sizeof(rpending_))`
abbrev pub zero_info : MsgInfo
zero_info = record {
  initialized = false;
  storage = use_mem;
  storage_initialized = false;
  msg_id = 0;
  hdr_len = 0;
  body_len = 0;
  buf_offset = 0;
  file_offset = 0;
}

-- What a session calls: the C library, the connection below it, and File objects.
pub record Os (File : Type 0) : Type 0 where
  pub realloc : Bytes → ℕ → Option Bytes
  pub is_connected : Bool
  -- `SSLConn::Write`: the error handler behind it and the count of bytes sent.
  pub ssl_write : ErrorHandler → Bytes → ErrorHandler × ℕ
  -- `SSLConn::Read` of at most so many bytes.
  pub ssl_read : ErrorHandler → ℕ → ErrorHandler × Bytes
  -- What an AppendMsg around a failed transfer prints, pointers included.
  pub report : Bytes
  pub is_open : File → Bool
  pub open_file : File → ErrorHandler → File × ErrorHandler
  pub lseek : File → ℕ → Option File
  -- `read`: `none` is -1, no bytes are the end of the file.
  pub read : File → ℕ → File × Option Bytes
  -- `write`: `none` is -1.
  pub write : File → Bytes → Option (File × ℕ)
  pub close : File → File
  pub clear_file : File → File

pub record Session (File : Type 0) : Type 0 where
  pub rbuf : Option Bytes
  pub rbuf_size : ℕ
  pub rbuf_len : ℕ
  pub rfile : File
  pub rpending : MsgInfo
  pub rhdr : MsgHdr
  pub rtid : ℕ
  pub wbuf : Option Bytes
  pub wbuf_size : ℕ
  pub wbuf_len : ℕ
  pub wfiles : List File
  pub wpending : List MsgInfo
  pub whdrs : List MsgHdr

-- `memcpy(block + at, xs, length xs)`
abbrev pub copy_in : Bytes → ℕ → Bytes → Bytes
copy_in block at xs = take at block ++ (xs ++ drop (at + length xs) block)

-- `memmove(block + at, block + from, n)`
abbrev pub move : Bytes → ℕ → ℕ → ℕ → Bytes
move block at from n = copy_in block at (take n (drop from block))

-- The pointer `block + from` and a count of `n` bytes.
abbrev pub slice : Bytes → ℕ → ℕ → Bytes
slice block from n = take n (drop from block)

-- `a - b` of two ssize_t, passed as a size_t.
abbrev pub size_sub : ℕ → ℕ → ℕ
size_sub a b = if ltb a b then 2 ^ 64 - (b - a) else a - b

abbrev pub null_error : ErrorHandler → Bytes → ErrorHandler
null_error e msg = ErrorHandler.init e ex_software (some msg)

unfoldable pub is_pending : MsgInfo → Bool
is_pending m = elim m.storage [
  | use_mem ↦ ltb m.buf_offset (m.hdr_len + m.body_len)
  | use_disc ↦ ltb m.buf_offset m.hdr_len || ltb m.file_offset m.body_len
]

unfoldable pub any_pending : List MsgInfo → Bool
unfolding is_pending
any_pending [] = false
any_pending (m ∷ ms) = is_pending m || any_pending ms

abbrev pub is_sent : MsgInfo → Bool
is_sent m =
    leb (m.hdr_len + m.body_len) m.buf_offset
    || leb (m.hdr_len + m.body_len) (m.file_offset + m.buf_offset)

unfoldable pub delete_from : ℕ → List MsgHdr → List MsgHdr
delete_from msg_id [] = []
delete_from msg_id (h ∷ hs) = if h.msg_id == msg_id then hs else h ∷ delete_from msg_id hs

module _ {File : Type 0} where
  unfoldable pub reset_wbuf : Session File → ErrorHandler → Session File × ErrorHandler
  reset_wbuf s e = elim s.wbuf [
    | none ↦ (s, null_error e (codes "TCPSession::ResetWbuf(): wbuf_ is NULL"))
    | some block ↦ (record s { wbuf_len = 0; wfiles = []; wpending = [] }, e)
  ]

  unfoldable pub is_outgoing_data_pending : Session File → Bool
  is_outgoing_data_pending s = any_pending s.wpending

  unfoldable pub is_outgoing_msg_sent : Session File → Bool
  is_outgoing_msg_sent s = elim s.wpending [ [] ↦ false | m ∷ ms ↦ is_sent m ]

  unfoldable pub delete_whdr : Session File → ℕ → Session File
  delete_whdr s msg_id = record s { whdrs = delete_from msg_id s.whdrs }

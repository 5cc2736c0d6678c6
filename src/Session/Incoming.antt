-- ===== src/Session/Incoming.antt =====
-- TCPSession.cc: Init, Read, ShiftRbuf, ResetRbuf, ClearIncomingMsg and StreamIncomingMsg, the
-- incoming side of a session.
use ip_utils.Base.{
  ℕ, ◌+◌, ◌-◌, min, Bool, true, not, ◌&&◌, ◌||◌, Option, none, some, ◌++◌, ltb, leb, ◌==◌,
  if◌then◌else◌, Bytes, codes, length, take, decimal,
}
use ip_utils.ErrorHandler
use ip_utils.ErrorHandler.{ErrorHandler, append_msg, ex_software, ex_oserr, ex_ioerr}
use ip_utils.MsgHdr.{clear}
use ip_utils.Session.{
  default_buf_size, zero_info, copy_in, move, size_sub, null_error, Storage, use_mem, use_disc, Os,
  Session,
}

module _ {File : Type 0} where
  unfoldable pub set_storage : Session File → Storage → Session File
  set_storage s storage = record s {
    rpending = record s.rpending { storage = storage; storage_initialized = true };
  }

  unfoldable pub is_incoming_msg_complete : Session File → Bool
  is_incoming_msg_complete s =
      s.rpending.initialized
      && (leb s.rpending.body_len s.rpending.file_offset || leb s.rpending.body_len s.rbuf_len)

  -- For an offset within the bytes that wait. Both branches of `ShiftRbuf` remove `len` bytes at `offset`, as far as there are so many.
  unfoldable pub shift_rbuf : Session File → ErrorHandler → ℕ → ℕ → Session File × ErrorHandler
  shift_rbuf s e len offset = elim s.rbuf [
    | none ↦ (s, null_error e (codes "TCPSession::ShiftRbuf(): rbuf_ is NULL"))
    | some block ↦
        if ltb s.rbuf_len (len + offset)
        then (
          let new_len = s.rbuf_len - offset in
              record s {
                rbuf =
                    some (
                      move block offset (offset + new_len)
                        (size_sub s.rbuf_len (new_len + offset)));
                rbuf_len = s.rbuf_len - new_len;
              },
          e,
        )
        else (
          record s {
            rbuf = some (move block offset (offset + len) (size_sub s.rbuf_len (len + offset)));
            rbuf_len = s.rbuf_len - len;
          },
          e,
        )
  ]

module _ {File : Type 0} (os : Os File) where
  abbrev cleared_rfile : Storage → File → File
  cleared_rfile use_mem f = f
  cleared_rfile use_disc f = os.clear_file f

  unfoldable pub reset_rbuf : Session File → ErrorHandler → Session File × ErrorHandler
  reset_rbuf s e = elim s.rbuf [
    | none ↦ (s, null_error e (codes "TCPSession::ResetRbuf(): rbuf_ is NULL"))
    | some block ↦ (
      record s {
        rbuf_len = 0;
        rfile = cleared_rfile s.rpending.storage s.rfile;
        rhdr = clear s.rhdr;
        rpending = zero_info;
      },
      e,
    )
  ]

  abbrev cleared_body : Storage → Session File → ErrorHandler → Session File × ErrorHandler
  cleared_body use_mem s e = shift_rbuf s e s.rpending.body_len 0
  cleared_body use_disc s e = (record s { rfile = os.clear_file s.rfile }, e)

  unfoldable pub clear_incoming_msg : Session File → ErrorHandler → Session File × ErrorHandler
  clear_incoming_msg s e = elim s.rbuf [
    | none ↦ (s, null_error e (codes "TCPSession::ClearIncomingMsg(): rbuf_ is NULL"))
    | some block ↦
        let (t, e') = cleared_body s.rpending.storage s e in
        (record t { rhdr = clear t.rhdr; rpending = zero_info }, e')
  ]

  -- A buffer with no room left is made longer.
  abbrev regrown : Session File → ErrorHandler → Bytes → ℕ → Session File × ErrorHandler × ℕ
  regrown s e block n =
      let size = s.rbuf_size + default_buf_size in
      if s.rbuf_len == s.rbuf_size
      then elim (os.realloc block size) [
        | none ↦
            let (t, e') = reset_rbuf s (
              ErrorHandler.init e ex_oserr (
                some
                  (codes "TCPSession::Read(): realloc(" ++ (decimal size ++ codes ") failed")))) in
            (t, e', 0)
        | some p ↦ (record s { rbuf = some p; rbuf_size = size }, e, n)
      ]
      else (s, e, n)

  unfoldable pub read : Session File → ErrorHandler → Session File × ErrorHandler × ℕ
  read s e = elim s.rbuf [
    | none ↦ (s, null_error e (codes "TCPSession::Read(): rbuf is NULL"), 0)
    | some block ↦
        let (e', got) = os.ssl_read e (s.rbuf_size - s.rbuf_len) in
        let block' = copy_in block s.rbuf_len got in
        let filled = record s { rbuf = some block' } in
        let (t, e'') =
          reset_rbuf filled (append_msg e' (some (codes "TCPSession::Read(): " ++ os.report))) in
        if e'.event_flag
        then (t, e'', 0)
        else regrown (record filled { rbuf_len = s.rbuf_len + length got }) e' block' (length got)
  ]

  abbrev pub streamed : Session File → ErrorHandler → File → ℕ → Session File × ErrorHandler × ℕ
  streamed s e f n =
      let offset = s.rpending.file_offset + n in
      let moved = record s { rfile = f; rpending = record s.rpending { file_offset = offset } } in
      let (t, e') = shift_rbuf moved e n 0 in
      if leb s.rpending.body_len offset
      then (record t { rfile = os.close f }, e', 0)
      else (t, e', 1)

  -- How many bytes are offered to the file; a negative count is a huge size_t.
  abbrev pub amount : Session File → ℕ
  amount s =
      if ltb s.rpending.body_len s.rpending.file_offset
      then size_sub s.rpending.body_len s.rpending.file_offset
      else min (s.rpending.body_len - s.rpending.file_offset) s.rbuf_len

  -- `StreamIncomingMsg`: 0 is returned when the whole body is in the file.
  unfoldable pub stream_incoming_msg : Session File → ErrorHandler → Session File × ErrorHandler × ℕ
  stream_incoming_msg s e = elim s.rbuf [
    | none ↦ (s, null_error e (codes "TCPSession::StreamIncomingMsg(): rbuf is NULL"), 1)
    | some block ↦
        if not (os.is_open s.rfile)
        then (s, null_error e (codes "TCPSession::StreamIncomingMsg(): rfile not open"), 1)
        else if not s.rpending.initialized
        then (s, null_error e (codes "TCPSession::Write(): rpending not initialized"), 1)
        else elim (os.write s.rfile (take (amount s) block)) [
          | none ↦
              let (t, e') = reset_rbuf s (
                ErrorHandler.init e ex_ioerr
                  (some (codes "TCPSession::StreamIncomingMsg(): " ++ os.report))) in
              (t, e', 1)
          | some (f, n) ↦ streamed s e f n
        ]
  ]

  -- `Init` on what `calloc` and `malloc` return for the two buffers.
  unfoldable pub init :
      Session File → ErrorHandler → Option Bytes → Option Bytes → Session File × ErrorHandler
  init s e rblock wblock = elim s.rbuf [
    | some block ↦ (s, null_error e (codes "TCPSession::Init(): rbuf is not NULL"))
    | none ↦
        if not (s.rtid == 0)
        then (s, null_error e (codes "TCPSession::Init(): rtid is not NULL"))
        else elim rblock [
          | none ↦ (
            s,
            ErrorHandler.init e ex_oserr
                (some (codes "TCPSession::Init(): rbuf calloc(4096) failed")),
          )
          | some r ↦ elim wblock [
            | none ↦ (
              record s { rbuf = some r; rbuf_size = default_buf_size; rbuf_len = 0; wbuf = none },
              ErrorHandler.init e ex_oserr
                  (some (codes "TCPSession::Init(): wbuf malloc(4096) failed")),
            )
            | some w ↦ (
              record s {
                rbuf = some r;
                rbuf_size = default_buf_size;
                rbuf_len = 0;
                wbuf = some w;
                wbuf_size = default_buf_size;
                wbuf_len = 0;
              },
              e,
            )
          ]
        ]
  ]

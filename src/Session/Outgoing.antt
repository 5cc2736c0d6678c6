-- ===== src/Session/Outgoing.antt =====
-- TCPSession.cc: AddMsgBuf, AddMsgFile and PopOutgoingMsgQueue, the two ends of the outgoing queue.
use ip_utils.Base.{
  ℕ, ◌+◌, ◌-◌, Bool, true, false, Option, none, some, List, [], ◌∷◌, ◌++◌, ltb, if◌then◌else◌,
  Bytes, codes, take, drop, cstr, is_empty, decimal,
}
use ip_utils.ErrorHandler
use ip_utils.ErrorHandler.{ErrorHandler, ex_oserr}
use ip_utils.MsgHdr.{body_len, is_msg_request, MsgHdr}
use ip_utils.Session.{
  default_buf_size, copy_in, move, size_sub, null_error, Storage, use_mem, use_disc, MsgInfo, Os,
  Session,
}

-- The MsgInfo of a new message; nothing reads its `initialized` before it is set.
abbrev pub new_info : Storage → MsgHdr → ℕ → ℕ → MsgInfo
new_info storage whdr hdr_len body_len = record {
  initialized = false;
  storage = storage;
  storage_initialized = true;
  msg_id = whdr.msg_id;
  hdr_len = hdr_len;
  body_len = body_len;
  buf_offset = 0;
  file_offset = 0;
}

abbrev pub archive : MsgHdr → List MsgHdr → List MsgHdr
archive whdr whdrs = if is_msg_request whdr then whdrs ++ (whdr ∷ []) else whdrs

abbrev realloc_failed : ErrorHandler → Bytes → ℕ → ErrorHandler
realloc_failed e name size =
    ErrorHandler.init e ex_oserr
      (some (name ++ (codes "realloc(" ++ (decimal size ++ codes ") failed"))))

-- The two guards of both routines: a buffer, and a header that is no empty C string.
abbrev pub checked : Option Bytes → Option Bytes → Option (Bytes × Bytes)
checked none hdr = none
checked (some block) none = none
checked (some block) (some hdr) = if is_empty (cstr hdr) then none else some (block, hdr)

abbrev refusal : Bytes → Bytes → Option Bytes → Bytes
refusal no_buffer no_header none = no_buffer
refusal no_buffer no_header (some block) = no_header

module _ {File : Type 0} where
  unfoldable pub load_buf : Session File → Bytes × ℕ → Bytes → ℕ → Bytes → ℕ → MsgHdr → Session File
  load_buf s (block, size) hdr hdr_len body body_len whdr = record s {
    wbuf = some (
        copy_in (copy_in block s.wbuf_len (take hdr_len hdr)) (s.wbuf_len + hdr_len)
          (take body_len body));
    wbuf_size = size;
    wbuf_len = s.wbuf_len + hdr_len + body_len;
    wpending = s.wpending ++ (new_info use_mem whdr hdr_len body_len ∷ []);
    whdrs = archive whdr s.whdrs;
  }

  unfoldable pub load_file : Session File → Bytes × ℕ → Bytes → ℕ → File → ℕ → MsgHdr → Session File
  load_file s (block, size) hdr hdr_len body body_len whdr = record s {
    wbuf = some (copy_in block s.wbuf_len (take hdr_len hdr));
    wbuf_size = size;
    wbuf_len = s.wbuf_len + hdr_len;
    wfiles = s.wfiles ++ (body ∷ []);
    wpending = s.wpending ++ (new_info use_disc whdr hdr_len body_len ∷ []);
    whdrs = archive whdr s.whdrs;
  }

module _ {File : Type 0} (os : Os File) where
  abbrev grown : ℕ → Option Bytes → Option (Bytes × ℕ)
  grown size none = none
  grown size (some p) = some (p, size)

  -- The block and its size with room for `need` bytes behind the ones in use.
  unfoldable pub reserve : Session File → Bytes → ℕ → Option (Bytes × ℕ)
  reserve s block need =
      if ltb s.wbuf_size (need + s.wbuf_len)
      then grown (need + s.wbuf_len + default_buf_size)
          (os.realloc block (need + s.wbuf_len + default_buf_size))
      else some (block, s.wbuf_size)

  unfoldable pub add_msg_buf :
      Session File
      → ErrorHandler
      → Option Bytes
      → ℕ
      → Bytes
      → ℕ
      → MsgHdr
      → Session File × ErrorHandler × Bool
  add_msg_buf s e framing_hdr hdr_len msg_body body_len whdr = elim (checked s.wbuf framing_hdr) [
    | none ↦ (
      s,
      null_error e (
          refusal (codes "TCPSession::AddMsgBuf(): wbuf_ is NULL")
            (codes "TCPSession::AddMsgBuf(): framing_hdr is NULL or empty") s.wbuf),
      false,
    )
    | some (block, hdr) ↦ elim (reserve s block (hdr_len + body_len)) [
      | none ↦ (
        s,
        realloc_failed e (codes "TCPSession::AddMsgBuf(): ")
            (hdr_len + body_len + s.wbuf_len + default_buf_size),
        false,
      )
      | some room ↦ (load_buf s room hdr hdr_len msg_body body_len whdr, e, true)
    ]
  ]

  unfoldable pub add_msg_file :
      Session File
      → ErrorHandler
      → Option Bytes
      → ℕ
      → File
      → ℕ
      → MsgHdr
      → Session File × ErrorHandler × Bool
  add_msg_file s e framing_hdr hdr_len msg_body body_len whdr = elim (checked s.wbuf framing_hdr) [
    | none ↦ (
      s,
      null_error e (
          refusal (codes "TCPSession::AddMsgFile(): wbuf is NULL")
            (codes "TCPSession::AddMsgFile(): framing_hdr is NULL or empty") s.wbuf),
      false,
    )
    | some (block, hdr) ↦ elim (reserve s block hdr_len) [
      | none ↦ (
        s,
        realloc_failed e (codes "TCPSession::AddMsgFile(): ")
            (hdr_len + s.wbuf_len + default_buf_size),
        false,
      )
      | some room ↦ (load_file s room hdr hdr_len msg_body body_len whdr, e, true)
    ]
  ]

module _ {File : Type 0} where
  -- The buffer without its first `n` bytes, as `memmove` closes the gap; for more than are in use
  -- `memmove` would leave the block.
  unfoldable pub close_gap : Session File → Bytes → ℕ → Session File
  close_gap s block n = record s {
    wbuf = some (move block 0 n (size_sub s.wbuf_len n));
    wbuf_len = s.wbuf_len - n;
  }

  unfoldable pub pop_front : Storage → Session File → Bytes → ℕ → ℕ → List MsgInfo → Session File
  unfolding close_gap
  pop_front use_mem s block hdr_len body_len ms = record (close_gap s block (hdr_len + body_len)) {
    wpending = ms;
  }
  pop_front use_disc s block hdr_len body_len ms = record (close_gap s block hdr_len) {
    wfiles = drop 1 s.wfiles;
    wpending = ms;
  }

  unfoldable pub pop_outgoing_msg_queue : Session File → ErrorHandler → Session File × ErrorHandler
  pop_outgoing_msg_queue s e = elim s.wbuf [
    | none ↦ (s, null_error e (codes "TCPSession::PopOutgoingMsgQueue(): wbuf_ is NULL"))
    | some block ↦ elim s.wpending [
      | [] ↦ (s, null_error e (codes "TCPSession::PopOutgoingMsgQueue(): wpending is empty"))
      | m ∷ ms ↦ (pop_front m.storage s block m.hdr_len m.body_len ms, e)
    ]
  ]

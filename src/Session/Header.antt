-- ===== src/Session/Header.antt =====
-- TCPSession.cc: InitIncomingMsg, which takes the framing header of a message off the front of the
-- incoming buffer, and puts a body that came in chunks back.
pub mod Accept
pub mod Refused
use ip_utils.Base.{
  ℕ, Bool, true, false, not, none, some, [], ◌∷◌, ◌++◌, ◌==◌, if◌then◌else◌, Bytes, codes, length,
  take, drop, cstr,
}
use ip_utils.Http.Chunked.{ChunkBuf}
use ip_utils.MsgHdr.{body_len, set_body_len, BasicFramingHdr, MsgHdr}
use ip_utils.MsgHdr.InitFromBuf.{hdr_len, init_from_buf, Inited, Around}
use ip_utils.Session.{default_buf_size, copy_in, size_sub, null_error, use_mem, Os, Session}
use ip_utils.Session.Incoming.{shift_rbuf, reset_rbuf}
use ip_utils.ErrorHandler
use ip_utils.MsgHdr.InitFromBuf
use ip_utils.ErrorHandler.{ErrorHandler, append_msg, ex_oserr}

-- What `InitIncomingMsg` finds around it: whether calloc(3) succeeds, whether realloc(3) of a size
-- does, the bytes of a pointer, and the global counter of messages.
pub record Outside : Type 0 where
  pub calloc : Bool
  pub realloc : ℕ → Bool
  pub pointer : BasicFramingHdr
  pub hash : ℕ

abbrev pub around : Outside → Around
around o = record {
  realloc = o.realloc;
  pointer = o.pointer;
  hash = o.hash;
  chunked = record { held = some []; size = default_buf_size };
  bytes_used = 0;
}

-- `strlen(chunked_msg_body)` measures this; a NULL does not come with a call that returns true.
abbrev pub chunked_text : ChunkBuf → Bytes
chunked_text b = elim b.held [ none ↦ [] | some bytes ↦ cstr bytes ]

abbrev init_text : Bytes
init_text = codes "TCPSession::InitIncomingMsg(): "

module _ {File : Type 0} where
  -- The meta-data of the message.
  unfoldable pub set_rpending : Session File → Session File
  set_rpending s = record s {
    rpending = record s.rpending {
      initialized = true;
      msg_id = s.rhdr.msg_id;
      hdr_len = InitFromBuf.hdr_len s.rhdr;
      body_len = body_len s.rhdr;
      buf_offset = 0;
      file_offset = 0;
      storage = use_mem;
    };
  }

  abbrev with_body_len : Session File → MsgHdr × ErrorHandler → Session File × ErrorHandler
  with_body_len s (m, e) = (record s { rhdr = m }, e)

  abbrev measured : ℕ → Session File × ErrorHandler → Session File × ErrorHandler
  measured len (s, e) = with_body_len s (set_body_len s.rhdr e len)

  -- The header goes; a body that was decoded takes the place of its chunks.
  unfoldable pub take_header :
      Session File → ErrorHandler → Bytes → ℕ → Bytes → Session File × ErrorHandler
  take_header s e block used [] = shift_rbuf s e used 0
  take_header s e block used (c ∷ body) = measured (length (c ∷ body)) (
      shift_rbuf (record s { rbuf = some (copy_in block 0 (c ∷ body)) }) e
        (size_sub used (length (c ∷ body))) (length (c ∷ body)))

  abbrev accepted : ℕ → Session File × ErrorHandler → Session File × ErrorHandler × ℕ × Bool
  accepted hash (s, e) = (set_rpending s, e, hash, true)

  abbrev turned_away : ℕ → Session File × ErrorHandler → Session File × ErrorHandler × ℕ × Bool
  turned_away hash (s, e) = (s, e, hash, false)

  module _ (os : Os File) where
    abbrev after_error : Session File → ErrorHandler → Session File × ErrorHandler
    after_error s e =
        if e.event_flag then reset_rbuf os s (append_msg e (some init_text)) else (s, e)

    -- What `MsgHdr::InitFromBuf` comes to on the bytes of `block`.
    unfoldable pub after_header :
        Session File → Bytes → Inited → Session File × ErrorHandler × ℕ × Bool
    after_header s block i =
        let t = record s { rhdr = i.hdr } in
        if i.ok
        then accepted i.hash (take_header t i.error block i.bytes_used (chunked_text i.chunked))
        else turned_away i.hash (after_error t i.error)

    -- The session, the errors, the counter of messages, and what the call returns.
    unfoldable pub init_incoming_msg :
        Outside → Session File → ErrorHandler → Session File × ErrorHandler × ℕ × Bool
    init_incoming_msg o s e = elim s.rbuf [
      | none ↦
          (s, null_error e (codes "TCPSession::InitIncomingMsg(): rbuf is NULL"), o.hash, false)
      | some block ↦
          if s.rbuf_len == 0
          then (s, e, o.hash, false)
          else if not o.calloc
          then (
            s,
            ErrorHandler.init e ex_oserr
                (some (init_text ++ codes "calloc(3) failed for size 4096b")),
            o.hash,
            false,
          )
          else after_header s block (
              InitFromBuf.init_from_buf (around o) s.rhdr e (some (take s.rbuf_len block))
                (drop s.rbuf_len block))
    ]

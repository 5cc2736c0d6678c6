-- ===== src/Session/Write.antt =====
-- TCPSession.cc, Write: one call sends a part of the first message, from the buffer or from a file.
use ip_utils.Base.{
  ℕ, ◌+◌, ◌-◌, not, Option, none, some, List, [], ◌∷◌, ◌++◌, ltb, if◌then◌else◌, Bytes, codes, take,
  is_empty,
}
use ip_utils.ErrorHandler
use ip_utils.ErrorHandler.{ErrorHandler, append_msg, ex_ioerr}
use ip_utils.Session.{
  slice, size_sub, null_error, reset_wbuf, Storage, use_mem, use_disc, MsgInfo, Os, Session,
}

abbrev pub file_chunk_size : ℕ
file_chunk_size = 4096

-- What a call leaves and returns, and the bytes that it gave to the connection.
pub record Sent (File : Type 0) : Type 0 where
  pub session : Session File
  pub error : ErrorHandler
  pub count : ℕ
  pub wire : Bytes

module _ {File : Type 0} (os : Os File) where
  abbrev refused : Session File → ErrorHandler → Bytes → Sent File
  refused s e msg = record { session = s; error = null_error e msg; count = 0; wire = [] }

  -- An early return behind an event: the outgoing side is emptied.
  abbrev pub dropped : Session File → ErrorHandler → ℕ → Bytes → Sent File
  dropped s e count wire =
      let (t, e') = reset_wbuf s e in record { session = t; error = e'; count = count; wire = wire }

  abbrev annotated : ErrorHandler → ErrorHandler
  annotated e = append_msg e (some (codes "TCPSession::Write(): " ++ os.report))

  abbrev io_error : ErrorHandler → ErrorHandler
  io_error e = ErrorHandler.init e ex_ioerr (some (codes "TCPSession::Write(): " ++ os.report))

  abbrev pub advanced : Session File → MsgInfo → ℕ → List MsgInfo → Session File
  advanced s m n ms = record s { wpending = record m { buf_offset = m.buf_offset + n } ∷ ms }

  -- The message is in the buffer, header and body.
  unfoldable pub write_mem :
      Session File → ErrorHandler → Bytes → MsgInfo → List MsgInfo → Sent File
  unfolding reset_wbuf
  write_mem s e block m ms =
      let offered = slice block m.buf_offset (size_sub (m.hdr_len + m.body_len) m.buf_offset) in
      let (e', n) = os.ssl_write e offered in
      if e'.event_flag
      then dropped s (annotated e') 0 (take n offered)
      else record { session = advanced s m n ms; error = e'; count = n; wire = take n offered }

  -- The next chunk of an open file.
  unfoldable pub send_chunk :
      Session File
      → ErrorHandler
      → MsgInfo
      → List MsgInfo
      → File
      → List File
      → ℕ
      → Bytes
      → Sent File
  unfolding reset_wbuf
  send_chunk s e m ms f fs bytes_sent wire =
      let amount =
        if ltb (m.file_offset + file_chunk_size) m.body_len
        then file_chunk_size
        else size_sub m.body_len m.file_offset in
      let (f', got) = os.read f amount in
      elim got [
        | none ↦ dropped s (io_error e) bytes_sent wire
        | some chunk ↦
            if is_empty chunk
            then dropped s (io_error e) bytes_sent wire
            else let (e', n) = os.ssl_write e chunk in
              if e'.event_flag then dropped s (annotated e') 0 (wire ++ take n chunk) else record {
                session = record s {
                  wfiles = f' ∷ fs;
                  wpending = record m { file_offset = m.file_offset + n } ∷ ms;
                };
                error = e';
                count = n;
                wire = wire ++ take n chunk;
              }
      ]

  -- The body of the message is in the first file, which is opened at the offset if need be; `none`
  -- is the `front()` of an empty vector.
  unfoldable pub write_body :
      Session File → ErrorHandler → MsgInfo → List MsgInfo → ℕ → Bytes → Option (Sent File)
  unfolding send_chunk reset_wbuf
  write_body s e m ms bytes_sent wire = elim s.wfiles [
    | [] ↦ none
    | f ∷ fs ↦
        if os.is_open f
        then some (send_chunk s e m ms f fs bytes_sent wire)
        else let (f', e') = os.open_file f e in
          if e'.event_flag
          then some (dropped s (annotated e') 0 wire)
          else some (elim (os.lseek f' m.file_offset) [
            | none ↦ dropped s (io_error e') 0 wire
            | some f'' ↦ send_chunk s e' m ms f'' fs bytes_sent wire
          ])
  ]

  -- The header of the message is in the buffer, its body in a file.
  unfoldable pub write_file :
      Session File → ErrorHandler → Bytes → MsgInfo → List MsgInfo → Option (Sent File)
  unfolding write_body reset_wbuf
  write_file s e block m ms =
      let offered = slice block m.buf_offset (m.hdr_len - m.buf_offset) in
      let (e', n) = os.ssl_write e offered in
      let m' = record m { buf_offset = m.buf_offset + n } in
      let body = write_body (advanced s m n ms) e' m' ms n (take n offered) in
      if ltb m.buf_offset m.hdr_len
      then if e'.event_flag
        then some (dropped s (annotated e') 0 (take n offered))
        else if ltb m'.buf_offset m.hdr_len
        then some
            (record { session = advanced s m n ms; error = e'; count = n; wire = take n offered })
        else body
      else write_body s e m ms 0 []

  unfoldable pub write_front :
      Storage → Session File → ErrorHandler → Bytes → MsgInfo → List MsgInfo → Option (Sent File)
  write_front use_mem s e block m ms = some (write_mem s e block m ms)
  write_front use_disc s e block m ms = write_file s e block m ms

  unfoldable pub write : Session File → ErrorHandler → Option (Sent File)
  write s e = elim s.wbuf [
    | none ↦ some (refused s e (codes "TCPSession::Write(): wbuf is NULL"))
    | some block ↦ elim s.wpending [
      | [] ↦ some (refused s e (codes "TCPSession::Write(): wpending is empty"))
      | m ∷ ms ↦
          if not os.is_connected
          then some (refused s e (codes "TCPSession::Write(): not connected"))
          else write_front m.storage s e block m ms
    ]
  ]

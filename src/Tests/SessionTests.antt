-- ===== src/Tests/SessionTests.antt =====
-- TCPSession.cc, MsgHdr.cc and HTTPFraming.cc: the theorems on concrete inputs.
use mathlib.Core.Option.{some-injective}
use ip_utils.Base.{
  ℕ, zero, suc, ◌+◌, ◌≤◌, min, ◌≡◌, refl, sym, ap, ◌∙◌, true, some, [], ◌∷◌, ◌++◌, arith, leb,
  if◌then◌else◌, Bytes, codes, length, take, drop,
}
use ip_utils.ErrorHandler.{no_error}
use ip_utils.Http.{empty_http, MsgField, Http}
use ip_utils.MsgHdr.{type_http, new_msg_hdr}
use ip_utils.Session.{zero_info, is_outgoing_msg_sent, use_mem, MsgInfo, Os, Session}
use ip_utils.Session.Outgoing.{new_info, add_msg_buf, add_msg_file, pop_outgoing_msg_queue}
use ip_utils.Session.Write.{write_mem, write_front, write}
use ip_utils.Session.Incoming.{stream_incoming_msg}
use ip_utils.Session.Queue.{total, files, queue, in_mem, in_file, IsSound}
use ip_utils.Session.Queue.Add.{Grows, Adds, add_msg_buf-queue, add_msg_file-queue}
use ip_utils.Session.Queue.Pop.{pop-queue}
use ip_utils.Session.Delivery.{text, TakesOffered, Writes-sent, Writes, done, call}
use ip_utils.Session.Progress.{message-delivered, Delivers, Flows}
use ip_utils.Session.Copy.{copy_session, copy_session-queue}
use ip_utils.Session.Streaming.{waiting, stream_incoming_msg_lem}

abbrev padded : ℕ → Bytes → Bytes
padded zero block = block
padded (suc n) [] = 0 ∷ padded n []
padded (suc n) (x ∷ block) = x ∷ padded n block

padded_lem :
    (n : ℕ) (block : Bytes)
    → length block ≤ n
    → (length (padded n block) ≡ n) × (take (length block) (padded n block) ≡ block)
padded_lem zero [] h = (refl, refl)
padded_lem zero (x ∷ block) h = absurd (omega arith)
padded_lem (suc n) [] h = let (size, kept) = padded_lem n [] (omega arith) in (omega arith, refl)
padded_lem (suc n) (x ∷ block) h =
    let (size, kept) = padded_lem n block (omega arith) in (omega arith, ap (◌∷◌ x) kept)

-- A system with memory left, with files that are their numbers, and a connection that takes
-- two bytes at a time.
abbrev pub two_at_a_time : Os ℕ
two_at_a_time = record {
  realloc = λ block n. some (padded n block);
  is_connected = true;
  ssl_write = λ e bs. (e, min 2 (length bs));
  ssl_read = λ e n. (e, []);
  report = [];
  is_open = λ f. true;
  open_file = λ f e. (f, e);
  lseek = λ f n. some f;
  read = λ f n. (f, some []);
  write = λ f bs. some (f, length bs);
  close = λ f. f;
  clear_file = λ f. f;
}

two_at_a_time-Grows : Grows two_at_a_time
two_at_a_time-Grows block p n h e =
    let (size, kept) = padded_lem n block h in
    let same = some-injective _ _ e in
    (ap length (sym same) ∙ size, ap (take (length block)) (sym same) ∙ kept)

two_at_a_time-TakesOffered : TakesOffered two_at_a_time
two_at_a_time-TakesOffered e bs = omega arith

abbrev pub empty_session : Session ℕ
empty_session = record {
  rbuf = some (codes "abcdef");
  rbuf_size = 6;
  rbuf_len = 5;
  rfile = 0;
  rpending = zero_info;
  rhdr = new_msg_hdr type_http;
  rtid = 0;
  wbuf = some (codes "..");
  wbuf_size = 2;
  wbuf_len = 0;
  wfiles = [];
  wpending = [];
  whdrs = [];
}

empty_session-IsSound : IsSound empty_session
unfolding total files
empty_session-IsSound = record {
  block = codes "..";
  allocated = refl;
  size = refl;
  fits = omega arith;
  used = refl;
  file_each = refl;
}

abbrev hi_info : MsgInfo
hi_info = new_info use_mem (new_msg_hdr type_http) 2 1

abbrev hi_session : Session ℕ
hi_session = record empty_session {
  wbuf = some (codes "Hi!.....");
  wbuf_size = 8;
  wbuf_len = 3;
  wpending = hi_info ∷ [];
}

hi_session-IsSound : IsSound hi_session
unfolding total files
hi_session-IsSound = record {
  block = codes "Hi!.....";
  allocated = refl;
  size = refl;
  fits = omega arith;
  used = refl;
  file_each = refl;
}

add_msg_buf-queue_example :
    Adds empty_session no_error
      (record { hdr = take 2 (codes "Hi"); body = in_mem (take 1 (codes "!")) })
      (add_msg_buf two_at_a_time empty_session no_error
        (some (codes "Hi"))
        2
        (codes "!")
        1
        (new_msg_hdr type_http))
add_msg_buf-queue_example =
    add_msg_buf-queue two_at_a_time empty_session no_error (codes "Hi") (codes "!") 2 1
      (new_msg_hdr type_http) two_at_a_time-Grows empty_session-IsSound (omega arith) (omega arith)

add_msg_file-queue_example :
    Adds hi_session no_error
      (record { hdr = take 2 (codes "Hi"); body = in_file 7 100 })
      (add_msg_file two_at_a_time hi_session no_error
        (some (codes "Hi"))
        2
        7
        100
        (new_msg_hdr type_http))
add_msg_file-queue_example =
    add_msg_file-queue two_at_a_time hi_session no_error (codes "Hi") 2 7 100
      (new_msg_hdr type_http) two_at_a_time-Grows hi_session-IsSound (omega arith)

pop-queue_example :
    let r = pop_outgoing_msg_queue hi_session no_error in
    IsSound r.0 × (queue r.0 ≡ drop 1 (queue hi_session)) × (r.1 ≡ no_error)
pop-queue_example = pop-queue hi_session no_error hi_info [] hi_session-IsSound refl

abbrev sent_session : ℕ → Session ℕ
sent_session n = record hi_session { wpending = record hi_info { buf_offset = n } ∷ [] }

hi-Write :
    (o : ℕ) (wire : Bytes) (n : ℕ)
    → write two_at_a_time (sent_session o) no_error
      ≡ some (record { session = sent_session (o + n); error = no_error; count = n; wire = wire })
    → (rest : Bytes) → Writes ℕ (sent_session (o + n)) rest (sent_session 3)
    → Writes ℕ (sent_session o) (wire ++ rest) (sent_session 3)
hi-Write o wire n e rest more =
    call two_at_a_time no_error
      (record { session = sent_session (o + n); error = no_error; count = n; wire = wire })
      two_at_a_time-TakesOffered refl e refl more

hi-Writes : Writes ℕ hi_session (codes "Hi!") (sent_session 3)
unfolding write write_front write_mem
hi-Writes = hi-Write 0 (codes "Hi") 2 refl (codes "!") (hi-Write 2 (codes "!") 1 refl [] done)

Writes-sent_example : codes "Hi!" ≡ text hi_session-IsSound.block hi_info
Writes-sent_example =
    Writes-sent hi_session hi_info [] hi_session-IsSound refl refl refl refl hi-Writes
      (unfold is_outgoing_msg_sent in refl)

abbrev closing : MsgField
closing = record { field_name = codes "connection"; field_value = codes "open"; parameters = [] }

abbrev closing_http : Http
closing_http = record empty_http { msg_hdrs = closing ∷ [] }

abbrev streaming : Session ℕ
streaming = record empty_session {
  rpending = record zero_info { initialized = true; body_len = 4; file_offset = 1 };
}

stream_incoming_msg_lem_example :
    let r = stream_incoming_msg two_at_a_time streaming no_error in
    (take 3 (codes "abcdef") ++ waiting r.0 ≡ waiting streaming)
    × (r.0.rpending.file_offset ≡ streaming.rpending.file_offset + 3)
    × (streaming.rpending.file_offset + 3 ≤ streaming.rpending.body_len)
    × (r.1 ≡ no_error)
    × (r.2
        ≡ (if leb streaming.rpending.body_len (streaming.rpending.file_offset + 3) then 0 else 1))
stream_incoming_msg_lem_example =
    stream_incoming_msg_lem two_at_a_time streaming no_error (codes "abcdef") 0 3 refl (omega arith)
      refl refl (omega arith) refl (omega arith)

two_at_a_time-Flows : Flows two_at_a_time
two_at_a_time-Flows = record {
  connected = refl;
  takes = two_at_a_time-TakesOffered;
  some_taken = λ e bs h. omega (arith, h);
  quiet = λ e bs h. h;
}

message-delivered_example :
    Delivers 4 (λ i. two_at_a_time) hi_session no_error (text hi_session-IsSound.block hi_info)
message-delivered_example =
    message-delivered (λ i. two_at_a_time) hi_session no_error hi_info [] hi_session-IsSound
      (λ i. two_at_a_time-Flows) refl refl refl refl refl

copy_session-queue_example :
    let t = copy_session hi_session zero_info 0 (some (codes "......")) (some (codes "........")) in
    IsSound t
    × (queue t ≡ queue hi_session)
    × (waiting t ≡ waiting hi_session)
    × (t.rpending ≡ hi_session.rpending)
copy_session-queue_example =
    copy_session-queue hi_session zero_info 0 (codes "abcdef") (codes "......") (codes "........")
      hi_session-IsSound refl refl (omega arith) (omega arith) (omega arith) refl refl

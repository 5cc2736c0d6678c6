-- ===== src/Session/Queue.antt =====
-- The outgoing queue of a session as the list of its messages: AddMsgBuf and AddMsgFile put a
-- message at the end, PopOutgoingMsgQueue drops the first one.
pub mod Buffer
pub mod Add
pub mod Pop
use ip_utils.Base.{ℕ, ◌+◌, ◌≤◌, ◌≡◌, none, some, List, [], ◌∷◌, ◌++◌, Bytes, length, take, drop}
use ip_utils.Session.{Storage, use_mem, use_disc, MsgInfo, Session}

pub data Body (File : Type 0) : Type 0 where
  in_mem : Bytes → Body File
  in_file : File → ℕ → Body File

pub record Message (File : Type 0) : Type 0 where
  pub hdr : Bytes
  pub body : Body File

-- The bytes of `wbuf_` that belong to a pending message.
abbrev pub extent : Storage → ℕ → ℕ → ℕ
extent use_mem hdr_len body_len = hdr_len + body_len
extent use_disc hdr_len body_len = hdr_len

abbrev pub footprint : MsgInfo → ℕ
footprint m = extent m.storage m.hdr_len m.body_len

unfoldable pub total : List MsgInfo → ℕ
total [] = 0
total (m ∷ ms) = footprint m + total ms

abbrev pub file_use : Storage → ℕ
file_use use_mem = 0
file_use use_disc = 1

abbrev pub file_count : MsgInfo → ℕ
file_count m = file_use m.storage

unfoldable pub files : List MsgInfo → ℕ
files [] = 0
files (m ∷ ms) = file_count m + files ms

module _ {File : Type 0} where
  -- The first pending message, if its body is there.
  abbrev pub message_of : Storage → ℕ → ℕ → Bytes → List File → List (Message File)
  message_of use_mem hdr_len body_len buf fs =
      record { hdr = take hdr_len buf; body = in_mem (take body_len (drop hdr_len buf)) } ∷ []
  message_of use_disc hdr_len body_len buf [] = []
  message_of use_disc hdr_len body_len buf (f ∷ fs) =
      record { hdr = take hdr_len buf; body = in_file f body_len } ∷ []

  abbrev pub first_message : MsgInfo → Bytes → List File → List (Message File)
  first_message m buf fs = message_of m.storage m.hdr_len m.body_len buf fs

  unfoldable pub messages : List MsgInfo → Bytes → List File → List (Message File)
  messages [] buf fs = []
  messages (m ∷ ms) buf fs =
      first_message m buf fs ++ messages ms (drop (footprint m) buf) (drop (file_count m) fs)

  -- The messages that wait in a session.
  unfoldable pub queue : Session File → List (Message File)
  queue s = elim s.wbuf [
    | none ↦ []
    | some block ↦ messages s.wpending (take s.wbuf_len block) s.wfiles
  ]

-- The buffer holds exactly the bytes of the pending messages, and there is a file for each that
-- has its body in one.
pub record IsSound {File : Type 0} (s : Session File) : Type 0 where
  pub block : Bytes
  pub allocated : s.wbuf ≡ some block
  pub size : length block ≡ s.wbuf_size
  pub fits : s.wbuf_len ≤ s.wbuf_size
  pub used : total s.wpending ≡ s.wbuf_len
  pub file_each : files s.wpending ≡ length s.wfiles

-- ===== src/Http/Chunked/Decode.antt =====
-- `ParseChunkedMsgBody` on a body that is written as chunks: what it decodes.
use ip_utils.Base.{
  ℕ, ◌+◌, ◌%◌, ◌^◌, ◌≡◌, false, List, [], ◌∷◌, ◌++◌, ltb, ◌==◌, if◌then◌else◌, Bytes, codes, length,
  cstr, AllKept, strtol_hex,
}
use ip_utils.Http.MsgHdrLine.RoundTrip.{crlf}
use ip_utils.Http.Chunked.{in_chunk, new_size, ChunkWalk}
use ip_utils.ErrorHandler.{ErrorHandler}

-- A chunk as it is sent: the text of its size, and its data.
pub record SentChunk : Type 0 where
  pub digits : Bytes
  pub payload : Bytes

abbrev pub announced : Bytes → ℕ
announced digits = strtol_hex (cstr digits)

-- A chunk with a size that is not 0, and no CR in its data.
abbrev pub IsChunk : SentChunk → Type 0
IsChunk c =
    AllKept in_chunk c.digits × ((announced c.digits == 0) ≡ false) × AllKept in_chunk c.payload

abbrev pub sent_text : SentChunk → Bytes
sent_text c = c.digits ++ (crlf ++ (c.payload ++ crlf))

unfoldable pub sent_chunks_text : List SentChunk → Bytes
sent_chunks_text [] = []
sent_chunks_text (c ∷ cs) = sent_text c ++ sent_chunks_text cs

unfoldable pub payloads : List SentChunk → Bytes
payloads [] = []
payloads (c ∷ cs) = c.payload ++ payloads cs

-- The line of the last chunk.
abbrev pub last_text : Bytes
last_text = codes "0" ++ crlf

-- The size of the buffer behind a chunk, when `have` bytes stand in it.
abbrev pub room : ℕ → ℕ → ℕ → ℕ
room have size n = if ltb ((n + have) % 2 ^ 64) size then size else new_size size n

unfoldable pub rooms : ℕ → ℕ → List SentChunk → ℕ
rooms have size [] = size
rooms have size (c ∷ cs) = rooms (have + length c.payload) (room have size (announced c.digits)) cs

abbrev walk : Bytes → ℕ → ErrorHandler → Bytes → ChunkWalk
walk body size e rest = record { body = body; size = size; error = e; rest = rest }

-- The number that a chunk announces is the length of its data.
abbrev pub IsHonest : SentChunk → Type 0
IsHonest c = announced c.digits ≡ length c.payload

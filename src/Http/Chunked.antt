-- ===== src/Http/Chunked.antt =====
-- HTTPFraming.cc, ParseChunkedMsgBody: the chunks of a message body, copied one behind the other
-- into a buffer that grows. `realloc` says whether realloc(3) of a size succeeds.
pub mod Decode
pub mod Room
pub mod Fuel
use ip_utils.Base.{
  ℕ, zero, suc, ◌+◌, ◌-◌, ◌%◌, ◌^◌, Bool, not, ◌||◌, Option, none, some, [], ◌∷◌, ◌++◌, ltb, leb,
  ◌==◌, if◌then◌else◌, Bytes, codes, length, cstr, isspace, head_byte, tail, is_empty, span_taken,
  span_rest, decimal, strtol_hex,
}
use ip_utils.ErrorHandler
use ip_utils.ErrorHandler.{ErrorHandler, ex_software, ex_oserr}
use ip_utils.Http.MsgHdrLine.{carriage_return, line_feed}

-- The caller's buffer: what is written to it so far, or `none` for NULL, and its size.
pub record ChunkBuf : Type 0 where
  pub held : Option Bytes
  pub size : ℕ

-- The walk: what is copied, the size of the buffer, the errors, and the bytes left.
pub record ChunkWalk : Type 0 where
  pub body : Bytes
  pub size : ℕ
  pub error : ErrorHandler
  pub rest : Bytes

-- How a round ends: with the next chunk, with the last one, with a `return false`, or with one
-- where realloc(3) failed and left NULL.
pub data Chunk : Type 0 where
  chunk_read : ChunkWalk → Chunk
  last_chunk : ChunkWalk → Chunk
  chunk_fail : ChunkWalk → Chunk
  chunk_lost : ChunkWalk → Chunk

abbrev pub chunk_text : Bytes → Bytes
chunk_text text = codes "HTTPFraming::ParseChunkedMsgBody(): " ++ text

abbrev pub in_chunk : ℕ → Bool
in_chunk c = not (c == carriage_return)

-- The `\n` at the pointer; what follows it goes on.
unfoldable pub chunk_feed : ℕ → Bytes → (ChunkWalk → Chunk) → ChunkWalk → Chunk
chunk_feed len behind go w =
    if head_byte w.rest == line_feed
    then go (record w { rest = tail w.rest })
    else chunk_fail (record w {
      error = ErrorHandler.init w.error ex_software (
          some (
            chunk_text (
              codes "TODO(aka) expected '"
              ++ (line_feed
                  ∷ (codes "', got: "
                      ++ (cstr (w.rest ++ behind)
                          ++ (codes " at cnt: " ++ decimal (len - length w.rest))))))));
    })

-- What stands before a CR, the CR, and the LF behind it, with the tests of `n` on the way.
unfoldable pub chunk_line :
    ℕ → Bytes → (Bytes → ChunkWalk → ChunkWalk) → (ChunkWalk → Chunk) → ChunkWalk → Chunk
chunk_line len behind store go w =
    let at = span_rest in_chunk w.rest in
    let w' = record (store (span_taken in_chunk w.rest) w) { rest = tail at } in
    if is_empty at || is_empty (tail at) then chunk_fail w' else chunk_feed len behind go w'

-- Room for `chunk_size` bytes more, a long as its 64-bit pattern.
unfoldable pub new_size : ℕ → ℕ → ℕ
new_size size chunk_size =
    if ltb chunk_size 4096 || leb (2 ^ 63) chunk_size
    then (size + 4096) % 2 ^ 64
    else (size + chunk_size + 1) % 2 ^ 64

unfoldable pub make_room : (ℕ → Bool) → ℕ → (ChunkWalk → Chunk) → ChunkWalk → Chunk
make_room realloc chunk_size go w =
    let size = new_size w.size chunk_size in
    if ltb ((chunk_size + length w.body) % 2 ^ 64) w.size
    then go w
    else if realloc size
    then go (record w { size = size })
    else chunk_lost (record w {
      error =
          ErrorHandler.init w.error ex_oserr
            (some (chunk_text (codes "realloc(3) failed for " ++ (decimal size ++ codes "b"))));
    })

abbrev store_data : Bytes → ChunkWalk → ChunkWalk
store_data bytes w = record w { body = w.body ++ bytes }

abbrev pub chunk_data : ℕ → Bytes → ChunkWalk → Chunk
chunk_data len behind = chunk_line len behind store_data chunk_read

-- Behind the line of the size.
abbrev pub after_size : (ℕ → Bool) → ℕ → Bytes → ℕ → ChunkWalk → Chunk
after_size realloc len behind chunk_size w =
    if is_empty w.rest
    then chunk_fail w
    else if chunk_size == 0
    then last_chunk w
    else make_room realloc chunk_size (chunk_data len behind) w

-- One round of the loop.
unfoldable pub parse_chunk : (ℕ → Bool) → ℕ → Bytes → ChunkWalk → Chunk
parse_chunk realloc len behind w =
    chunk_line len behind (λ digits x. x)
      (after_size realloc len behind (strtol_hex (cstr (span_taken in_chunk w.rest)))) w

abbrev pub then_chunk : Chunk → (ChunkWalk → Chunk) → Chunk
then_chunk (chunk_read w) f = f w
then_chunk c f = c

-- `while (n > 0)`; each round takes a byte at least.
unfoldable pub parse_chunks : ℕ → (ℕ → Bool) → ℕ → Bytes → ChunkWalk → Chunk
parse_chunks zero realloc len behind w = chunk_fail w
parse_chunks (suc fuel) realloc len behind w =
    if is_empty w.rest
    then chunk_fail w
    else then_chunk (parse_chunk realloc len behind w) (parse_chunks fuel realloc len behind)

-- The buffer, the errors, and the count of bytes used of a call that returns true.
abbrev pub chunk_end : ℕ → Chunk → ChunkBuf × ErrorHandler × Option ℕ
chunk_end len (last_chunk w) =
    (record { held = some w.body; size = w.size }, w.error, some (len - length w.rest))
chunk_end len (chunk_lost w) = (record { held = none; size = w.size }, w.error, none)
chunk_end len (chunk_fail w) = (record { held = some w.body; size = w.size }, w.error, none)
chunk_end len (chunk_read w) = (record { held = some w.body; size = w.size }, w.error, none)

abbrev null_body : ChunkBuf → ErrorHandler → ChunkBuf × ErrorHandler × Option ℕ
null_body b e = (
  b,
  ErrorHandler.init e ex_software
      (some (chunk_text (codes "TODO(aka) buf or our msg_body buffer is NULL"))),
  none,
)

-- The buffer is written from its front.
unfoldable pub parse_chunked_msg_body :
    (ℕ → Bool) → ErrorHandler → Option Bytes → Bytes → ChunkBuf → ChunkBuf × ErrorHandler × Option ℕ
parse_chunked_msg_body realloc e none behind b = null_body b e
parse_chunked_msg_body realloc e (some buf) behind b = elim b.held [
  | none ↦ null_body b e
  | some old ↦ chunk_end (length buf) (
      parse_chunks (length buf + 1) realloc (length buf) behind
        (record { body = []; size = b.size; error = e; rest = span_rest isspace buf }))
]

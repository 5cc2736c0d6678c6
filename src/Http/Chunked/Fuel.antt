-- ===== src/Http/Chunked/Fuel.antt =====
-- The loop over the chunks ends.
use ip_utils.Base.{
  ℕ, zero, suc, ◌+◌, ◌%◌, ◌^◌, ◌≤◌, ◌<◌, ◌≡◌, refl, ap, inl, inr, Bool, false, [], ◌∷◌, arith, ltb,
  ◌==◌, if◌then◌else◌, Bool-cases, Bytes, length, cstr, head_byte, tail, length-tail, is_empty,
  span_taken, span_rest, length-span_rest, strtol_hex,
}
use ip_utils.Http.MsgHdrLine.{line_feed}
use ip_utils.Http.Chunked.{
  in_chunk, chunk_feed, chunk_line, new_size, make_room, store_data, chunk_data, after_size,
  parse_chunk, then_chunk, parse_chunks, ChunkWalk, Chunk, chunk_read, last_chunk, chunk_fail,
  chunk_lost,
}

-- A round that goes on leaves less than `n` bytes.
abbrev Goes : ℕ → Chunk → Type 0
Goes n (chunk_read w) = length w.rest < n
Goes n c = Unit

tail_shorter : (xs : Bytes) → is_empty xs ≡ false → length (tail xs) < length xs
tail_shorter [] h = cc
tail_shorter (x ∷ xs) h = omega arith

chunk_feed-Goes :
    (len : ℕ) (behind : Bytes) (go : ChunkWalk → Chunk) (w : ChunkWalk) (n : ℕ)
    → length w.rest < n
    → ((v : ChunkWalk) → length v.rest < n → Goes n (go v))
    → Goes n (chunk_feed len behind go w)
unfolding chunk_feed
chunk_feed-Goes len behind go w n h goes = elim (Bool-cases (head_byte w.rest == line_feed)) [
  | inl feed ↦ rw feed (goes (record w { rest = tail w.rest }) (omega (arith, length-tail w.rest)))
  | inr other ↦ rw other tt
]

-- A line takes the CR and the LF at least.
chunk_line-Goes :
    (len : ℕ) (behind : Bytes) (store : Bytes → ChunkWalk → ChunkWalk) (go : ChunkWalk → Chunk)
    (w : ChunkWalk) (n : ℕ)
    → length w.rest ≤ n
    → ((v : ChunkWalk) → length v.rest < n → Goes n (go v))
    → Goes n (chunk_line len behind store go w)
unfolding chunk_line
chunk_line-Goes len behind store go w n h goes =
    let at = span_rest in_chunk w.rest in
    elim (Bool-cases (is_empty at)) [
      | inl end ↦ rw end tt
      | inr at_return ↦ elim (Bool-cases (is_empty (tail at))) [
        | inl end ↦ rw (at_return, end) tt
        | inr at_feed ↦
            rw (at_return, at_feed)
              (chunk_feed-Goes len behind go _ n
                (omega (arith, tail_shorter at at_return, length-span_rest in_chunk w.rest)) goes)
      ]
    ]

make_room-Goes :
    (realloc : ℕ → Bool) (k : ℕ) (go : ChunkWalk → Chunk) (w : ChunkWalk) (n : ℕ)
    → ((size : ℕ) → Goes n (go (record w { size = size })))
    → Goes n (make_room realloc k go w)
unfolding make_room
make_room-Goes realloc k go w n goes =
    elim (Bool-cases (ltb ((k + length w.body) % 2 ^ 64) w.size)) [
      | inl fits ↦ rw fits (goes w.size)
      | inr full ↦ elim (Bool-cases (realloc (new_size w.size k))) [
        | inl grown ↦ rw (full, grown) (goes (new_size w.size k))
        | inr lost ↦ rw (full, lost) tt
      ]
    ]

after_size-Goes :
    (realloc : ℕ → Bool) (len : ℕ) (behind : Bytes) (k : ℕ) (w : ChunkWalk) (n : ℕ)
    → length w.rest < n
    → Goes n (after_size realloc len behind k w)
after_size-Goes realloc len behind k w n h = elim (Bool-cases (is_empty w.rest)) [
  | inl end ↦ rw end tt
  | inr some_left ↦ elim (Bool-cases (k == 0)) [
    | inl last ↦ rw (some_left, last) tt
    | inr more_data ↦
        rw (some_left, more_data)
          (make_room-Goes realloc k (chunk_data len behind) w n (λ size.
            chunk_line-Goes len behind store_data chunk_read (record w { size = size }) n
              (omega arith) (λ v shorter. shorter)))
  ]
]

parse_chunk-Goes :
    (realloc : ℕ → Bool) (len : ℕ) (behind : Bytes) (w : ChunkWalk)
    → Goes (length w.rest) (parse_chunk realloc len behind w)
unfolding parse_chunk
parse_chunk-Goes realloc len behind w =
    chunk_line-Goes len behind (λ digits x. x)
      (after_size realloc len behind (strtol_hex (cstr (span_taken in_chunk w.rest)))) w
      (length w.rest) (omega arith)
      (λ v shorter. after_size-Goes realloc len behind _ v (length w.rest) shorter)

then_same :
    (c : Chunk) (f g : ChunkWalk → Chunk) (n : ℕ)
    → Goes n c
    → ((w : ChunkWalk) → length w.rest < n → f w ≡ g w)
    → then_chunk c f ≡ then_chunk c g
then_same (chunk_read w) f g n h same = same w h
then_same (last_chunk w) f g n h same = refl
then_same (chunk_fail w) f g n h same = refl
then_same (chunk_lost w) f g n h same = refl

-- The loop over the chunks ends: with a step for each byte left and one more it never runs out of
-- steps, so any larger number of steps gives the same result.
pub parse_chunks_fuel :
    (f g : ℕ) (realloc : ℕ → Bool) (len : ℕ) (behind : Bytes) (w : ChunkWalk)
    → length w.rest < f
    → length w.rest < g
    → parse_chunks f realloc len behind w ≡ parse_chunks g realloc len behind w
unfolding parse_chunks
parse_chunks_fuel zero g realloc len behind w hf hg = absurd (omega arith)
parse_chunks_fuel (suc f) zero realloc len behind w hf hg = absurd (omega arith)
parse_chunks_fuel (suc f) (suc g) realloc len behind w hf hg =
    ap (λ (c : Chunk). if is_empty w.rest then chunk_fail w else c)
      (then_same (parse_chunk realloc len behind w) (parse_chunks f realloc len behind)
        (parse_chunks g realloc len behind) (length w.rest) (parse_chunk-Goes realloc len behind w)
        (λ v shorter. parse_chunks_fuel f g realloc len behind v (omega arith) (omega arith)))

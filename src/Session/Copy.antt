-- ===== src/Session/Copy.antt =====
-- TCPSession.cc: the copy constructor.
use ip_utils.Base.{
  ℕ, ◌≤◌, ◌<◌, ◌≡◌, refl, ap, ◌∙◌, true, Option, none, some, arith, ltb, if◌then◌else◌, Bytes,
  length, take, length-take,
}
use ip_utils.Session.{copy_in, MsgInfo, Session}
use ip_utils.Session.Queue.{queue, IsSound}
use ip_utils.Session.Queue.Buffer.{copy_in_used, length-copy_in}
use ip_utils.Session.Streaming.{waiting}

-- What `malloc` gives where a buffer has a size: `none` when it fails. Without a size the pointer
-- stays NULL.
abbrev allocated : ℕ → Option Bytes → Option (Option Bytes)
allocated size got =
    if ltb 0 size then elim got [ none ↦ none | some block ↦ some (some block) ] else some none

-- The bytes in use of the old block in the new one.
abbrev filled : Option Bytes → Option Bytes → ℕ → Option Bytes
filled new old len = elim new [
  | none ↦ none
  | some p ↦ elim old [ none ↦ some p | some q ↦ some (copy_in p 0 (take len q)) ]
]

module _ {File : Type 0} where
  -- The object before and after the results of `malloc` are known.
  abbrev loaded :
      Session File → Session File → Option (Option Bytes) → Option (Option Bytes) → Session File
  loaded src base none got = base
  loaded src base (some r) none = record base { rbuf = r }
  loaded src base (some r) (some w) = record src {
    rbuf = filled r src.rbuf src.rbuf_len;
    wbuf = filled w src.wbuf src.wbuf_len;
  }

  -- `info` and `rtid` are what the memory of the object held, which stays where the constructor
  -- returns early; `got_r` and `got_w` are the results of `malloc` for the two buffers.
  unfoldable pub copy_session :
      Session File → MsgInfo → ℕ → Option Bytes → Option Bytes → Session File
  copy_session src info rtid got_r got_w =
      let base = record src {
        rbuf = none;
        rbuf_size = 0;
        rbuf_len = 0;
        rpending = info;
        rtid = rtid;
        wbuf = none;
        wbuf_size = 0;
        wbuf_len = 0;
      } in
      loaded src base (allocated src.rbuf_size got_r) (allocated src.wbuf_size got_w)

-- The bytes in use are those of the old block, and the new block keeps its length.
filled_lem :
    (p q : Bytes) (len : ℕ)
    → len ≤ length q
    → length q ≡ length p
    → (length (copy_in p 0 (take len q)) ≡ length p)
      × (take len (copy_in p 0 (take len q)) ≡ take len q)
filled_lem p q len h same =
    let size : length (take len q) ≡ len = omega (arith, length-take len q) in
    (
      length-copy_in p (take len q) 0 (omega arith),
      ap (λ (n : ℕ). take n (copy_in p 0 (take len q))) (omega arith)
          ∙ copy_in_used p (take len q) 0 (omega arith),
    )

module _ {File : Type 0} where
  copied :
      (s : Session File) (info : MsgInfo) (rtid : ℕ) (rblock block p q : Bytes)
      → s.rbuf ≡ some rblock
      → s.wbuf ≡ some block
      → 0 < s.rbuf_size
      → 0 < s.wbuf_size
      → copy_session s info rtid (some p) (some q) ≡ record s {
        rbuf = some (copy_in p 0 (take s.rbuf_len rblock));
        wbuf = some (copy_in q 0 (take s.wbuf_len block));
      }
  unfolding copy_session
  copied s info rtid rblock block p q er ew hr hw =
      let some_r : ltb 0 s.rbuf_size ≡ true = ground arith in
      let some_w : ltb 0 s.wbuf_size ≡ true = ground arith in rw (some_r, some_w, er, ew) refl

  -- For a sound session whose two buffers have a size and whose incoming bytes fit, and where both
  -- calls of `malloc` give a block of the size asked for: the copy is sound too, the same messages
  -- wait in its outgoing queue and the same bytes in its incoming buffer, and it is at the same
  -- place of the same incoming message.
  pub copy_session-queue :
      (s : Session File) (info : MsgInfo) (rtid : ℕ) (rblock p q : Bytes) (w : IsSound s)
      → s.rbuf ≡ some rblock
      → length rblock ≡ s.rbuf_size
      → s.rbuf_len ≤ s.rbuf_size
      → 0 < s.rbuf_size
      → 0 < s.wbuf_size
      → length p ≡ s.rbuf_size
      → length q ≡ s.wbuf_size
      → let t = copy_session s info rtid (some p) (some q) in
        IsSound t × (queue t ≡ queue s) × (waiting t ≡ waiting s) × (t.rpending ≡ s.rpending)
  unfolding queue
  copy_session-queue s info rtid rblock p q w er size fits hr hw sp sq =
      let (kept, same) = filled_lem p rblock s.rbuf_len (omega arith) (omega arith) in
      let (wkept, wsame) =
        filled_lem q w.block s.wbuf_len (omega (arith, w.fits, w.size)) (omega (arith, w.size)) in
      rw (copied s info rtid rblock w.block p q er w.allocated hr hw) (
        record {
          block = copy_in q 0 (take s.wbuf_len w.block);
          allocated = refl;
          size = wkept ∙ sq;
          fits = w.fits;
          used = w.used;
          file_each = w.file_each;
        },
        rw (w.allocated, wsame) refl,
        rw (er, same) refl,
        refl,
      )

-- ===== src/Session/Queue/Add.antt =====
-- AddMsgBuf and AddMsgFile put one message behind the ones that wait.
use ip_utils.Base.{
  ℕ, ◌+◌, ◌≤◌, ◌<◌, ◌≡◌, refl, sym, ap, ◌∙◌, ◌⊎◌, inl, inr, Bool, true, false, none, some, List, [],
  ◌∷◌, ◌++◌, append_assoc, append-nil, arith, ltb, Bool-cases, Option-cases, Bytes, length, take,
  length-append, length-take, cstr, take_all, take-take, drop_append, take_append, is_empty,
}
use ip_utils.ErrorHandler
use ip_utils.ErrorHandler.{ErrorHandler}
use ip_utils.MsgHdr.{MsgHdr}
use ip_utils.Session.{default_buf_size, copy_in, use_mem, use_disc, MsgInfo, Os, Session}
use ip_utils.Session.Outgoing.{
  new_info, checked, load_buf, load_file, reserve, add_msg_buf, add_msg_file,
}
use ip_utils.Session.Queue.Buffer.{
  copy_in_to, length-copy_in, total-concat, files-concat, messages-concat,
}
use ip_utils.Session.Queue.{
  footprint, file_count, message_of, first_message, queue, in_mem, in_file, Message, IsSound,
}

module _ {File : Type 0} where
  -- `realloc` to a size that is no smaller returns NULL or a block of that size with the old bytes.
  abbrev pub Grows : Os File → Type 0
  Grows os =
      (block p : Bytes) (n : ℕ)
      → length block ≤ n
      → os.realloc block n ≡ some p
      → (length p ≡ n) × (take (length block) p ≡ block)

  -- Room for `need` bytes behind the ones in use, which are those of the old block.
  record HasRoom (s : Session File) (block : Bytes) (need : ℕ) (room : Bytes × ℕ) : Type 0 where
    block_size : length room.0 ≡ room.1
    enough : s.wbuf_len + need ≤ room.1
    kept : take s.wbuf_len room.0 ≡ take s.wbuf_len block

  reserve-HasRoom :
      (os : Os File) (s : Session File) (block : Bytes) (need : ℕ)
      → Grows os
      → length block ≡ s.wbuf_size
      → s.wbuf_len ≤ s.wbuf_size
      → (reserve os s block need ≡ none)
        ⊎ ((room : Bytes × ℕ) × (reserve os s block need ≡ some room) × HasRoom s block need room)
  unfolding reserve
  reserve-HasRoom os s block need g hs hf =
      let size = need + s.wbuf_len + default_buf_size in
      elim (Bool-cases (ltb s.wbuf_size (need + s.wbuf_len))) [
        | inl big ↦ elim (Option-cases (os.realloc block size)) [
          | inl failed ↦ inl (rw (big, failed))
          | inr (p, got) ↦
              let larger : s.wbuf_size < need + s.wbuf_len = ground arith in
              let (psize, pkept) = g block p size (omega arith) got in
              let short : s.wbuf_len ≤ length block = omega arith in
              inr (
                (p, size),
                rw (big, got),
                record {
                  block_size = psize;
                  enough = omega arith;
                  kept =
                      sym (take-take s.wbuf_len (length block) p short)
                      ∙ ap (take s.wbuf_len) pkept;
                },
              )
        ]
        | inr small ↦ inr (
          (block, s.wbuf_size),
          rw small,
          record { block_size = hs; enough = ground arith; kept = refl },
        )
      ]

  -- A session that got `m` at the end of its queue, and its bytes and files behind the others.
  put_lem :
      (s t : Session File) (w : IsSound s) (m : MsgInfo) (block new : Bytes) (fs : List File)
      → t.wbuf ≡ some block
      → length block ≡ t.wbuf_size
      → t.wbuf_len ≤ t.wbuf_size
      → t.wbuf_len ≡ s.wbuf_len + footprint m
      → t.wpending ≡ s.wpending ++ (m ∷ [])
      → t.wfiles ≡ s.wfiles ++ fs
      → length fs ≡ file_count m
      → take t.wbuf_len block ≡ take s.wbuf_len w.block ++ new
      → IsSound t × (queue t ≡ queue s ++ first_message m new fs)
  unfolding queue
  put_lem s t w m block new fs eb es hf el ep ef hm et = (
    record {
      block = block;
      allocated = eb;
      size = es;
      fits = hf;
      used = rw ep (omega (arith, total-concat s.wpending m, w.used));
      file_each =
          rw (ep, ef)
            (omega (arith, files-concat s.wpending m, w.file_each, length-append s.wfiles fs));
    },
    rw (eb, ep, ef, et, w.allocated)
        (messages-concat s.wpending m (take s.wbuf_len w.block) new s.wfiles fs
          (omega (arith, w.used, w.size, w.fits, length-take s.wbuf_len w.block)) w.file_each),
  )

  message_of_whole :
      (hd bd : Bytes) (h b : ℕ)
      → length hd ≡ h
      → length bd ≡ b
      → message_of {File = File} use_mem h b (hd ++ bd) []
        ≡ record { hdr = hd; body = in_mem bd } ∷ []
  message_of_whole hd bd h b lh lb =
      rw (← lh, ← lb, take_append hd bd, drop_append hd bd, take_all (length bd) bd (omega arith))
        refl

  load_buf_lem :
      (s : Session File) (w : IsSound s) (room : Bytes × ℕ) (hdr body : Bytes) (h b : ℕ)
      (whdr : MsgHdr)
      → HasRoom s w.block (h + b) room
      → h ≤ length hdr
      → b ≤ length body
      → let t = load_buf s room hdr h body b whdr in
        IsSound t
        × (queue t ≡ queue s ++ (record { hdr = take h hdr; body = in_mem (take b body) } ∷ []))
  unfolding load_buf
  load_buf_lem s w (p, size) hdr body h b whdr r hh hb =
      let hd = take h hdr in
      let bd = take b body in
      let lh : length hd ≡ h = omega (arith, length-take h hdr) in
      let lb : length bd ≡ b = omega (arith, length-take b body) in
      let first = copy_in p s.wbuf_len hd in
      let lf : length first ≡ length p =
        length-copy_in p hd s.wbuf_len (omega (arith, r.enough, r.block_size)) in
      let text : take (s.wbuf_len + h + b) (copy_in first (s.wbuf_len + h) bd)
          ≡ take s.wbuf_len w.block ++ (hd ++ bd) =
        copy_in_to first bd (s.wbuf_len + h) (s.wbuf_len + h + b) (omega arith)
          (omega (arith, r.enough, r.block_size))
        ∙ ap (λ (xs : Bytes). xs ++ bd)
            (copy_in_to p hd s.wbuf_len (s.wbuf_len + h) (omega arith)
                (omega (arith, r.enough, r.block_size))
              ∙ ap (λ (xs : Bytes). xs ++ hd) r.kept)
        ∙ append_assoc (take s.wbuf_len w.block) hd bd in
      let (sound, at) =
        put_lem s (load_buf s (p, size) hdr h body b whdr) w (new_info use_mem whdr h b)
          (copy_in first (s.wbuf_len + h) bd) (hd ++ bd) [] refl
          (omega (arith, lf, r.block_size, length-copy_in first bd (s.wbuf_len + h)))
          (omega (arith, r.enough)) (omega arith) refl (sym (append-nil s.wfiles)) refl text in
      (sound, at ∙ ap (◌++◌ (queue s)) (message_of_whole hd bd h b lh lb))

  load_file_lem :
      (s : Session File) (w : IsSound s) (room : Bytes × ℕ) (hdr : Bytes) (body : File) (h b : ℕ)
      (whdr : MsgHdr)
      → HasRoom s w.block h room
      → h ≤ length hdr
      → let t = load_file s room hdr h body b whdr in
        IsSound t × (queue t ≡ queue s ++ (record { hdr = take h hdr; body = in_file body b } ∷ []))
  unfolding load_file
  load_file_lem s w (p, size) hdr body h b whdr r hh =
      let hd = take h hdr in
      let lh : length hd ≡ h = omega (arith, length-take h hdr) in
      let text : take (s.wbuf_len + h) (copy_in p s.wbuf_len hd) ≡ take s.wbuf_len w.block ++ hd =
        copy_in_to p hd s.wbuf_len (s.wbuf_len + h) (omega arith)
          (omega (arith, r.enough, r.block_size))
        ∙ ap (λ (xs : Bytes). xs ++ hd) r.kept in
      let (sound, at) =
        put_lem s (load_file s (p, size) hdr h body b whdr) w (new_info use_disc whdr h b)
          (copy_in p s.wbuf_len hd) hd (body ∷ []) refl
          (omega (arith, r.enough, r.block_size, length-copy_in p hd s.wbuf_len))
          (omega (arith, r.enough)) refl refl refl refl text in
      (
        sound,
        at
            ∙ ap (λ (xs : Bytes). queue s ++ (record { hdr = xs; body = in_file body b } ∷ []))
                (take-take h h hdr (omega arith)),
      )

  -- What a call that adds `msg` may come to: the queue with `msg` at its end and no event, or
  -- `false`, the session as it was and an event.
  abbrev pub Adds :
      Session File → ErrorHandler → Message File → Session File × ErrorHandler × Bool → Type 0
  Adds s e msg (t, e', ok) =
      ((ok ≡ true) × (e' ≡ e) × IsSound t × (queue t ≡ queue s ++ (msg ∷ [])))
      ⊎ ((ok ≡ false) × (e'.event_flag ≡ true) × (t ≡ s))

  -- `AddMsgBuf` on a sound session, with a header of at least `hdr_len` bytes, a body of at
  -- least `len` bytes and a `realloc` that keeps the old bytes, either puts the message at the
  -- end of the queue, with its first `hdr_len` bytes of header and `len` bytes of body, and
  -- leaves a sound session and no new event; or it returns false with an event and the session
  -- as it was.
  pub add_msg_buf-queue :
      (os : Os File) (s : Session File) (e : ErrorHandler) (hdr body : Bytes) (hdr_len len : ℕ)
      (whdr : MsgHdr)
      → Grows os
      → IsSound s
      → hdr_len ≤ length hdr
      → len ≤ length body
      → Adds s e
          (record { hdr = take hdr_len hdr; body = in_mem (take len body) })
          (add_msg_buf os s e (some hdr) hdr_len body len whdr)
  unfolding add_msg_buf ErrorHandler.init
  add_msg_buf-queue os s e hdr body h b whdr g w hh hb =
      let refused : is_empty (cstr hdr) ≡ true → checked s.wbuf (some hdr) ≡ none =
        λ c. rw (w.allocated, c) in
      let accepted : is_empty (cstr hdr) ≡ false → checked s.wbuf (some hdr) ≡ some (w.block, hdr) =
        λ c. rw (w.allocated, c) in
      elim (Bool-cases (is_empty (cstr hdr))) [
        | inl empty ↦ rw (add_msg_buf, refused empty) (inr (refl, refl, refl))
        | inr full ↦ elim (reserve-HasRoom os s w.block (h + b) g w.size w.fits) [
          | inl failed ↦ rw (add_msg_buf, accepted full, failed) (inr (refl, refl, refl))
          | inr (room, got, r) ↦
              rw (add_msg_buf, accepted full, got)
                (inl (
                  let (sound, at) = load_buf_lem s w room hdr body h b whdr r hh hb in
                  (refl, refl, sound, at)))
        ]
      ]

  -- `AddMsgFile` on a sound session, with a header of at least `hdr_len` bytes and a `realloc`
  -- that keeps the old bytes, either puts the message at the end of the queue, with its first
  -- `hdr_len` bytes of header and the file as its body, and leaves a sound session and no new
  -- event; or it returns false with an event and the session as it was.
  pub add_msg_file-queue :
      (os : Os File) (s : Session File) (e : ErrorHandler) (hdr : Bytes) (hdr_len : ℕ) (body : File)
      (len : ℕ) (whdr : MsgHdr)
      → Grows os
      → IsSound s
      → hdr_len ≤ length hdr
      → Adds s e
          (record { hdr = take hdr_len hdr; body = in_file body len })
          (add_msg_file os s e (some hdr) hdr_len body len whdr)
  unfolding add_msg_file ErrorHandler.init
  add_msg_file-queue os s e hdr h body b whdr g w hh =
      let refused : is_empty (cstr hdr) ≡ true → checked s.wbuf (some hdr) ≡ none =
        λ c. rw (w.allocated, c) in
      let accepted : is_empty (cstr hdr) ≡ false → checked s.wbuf (some hdr) ≡ some (w.block, hdr) =
        λ c. rw (w.allocated, c) in
      elim (Bool-cases (is_empty (cstr hdr))) [
        | inl empty ↦ rw (add_msg_file, refused empty) (inr (refl, refl, refl))
        | inr full ↦ elim (reserve-HasRoom os s w.block h g w.size w.fits) [
          | inl failed ↦ rw (add_msg_file, accepted full, failed) (inr (refl, refl, refl))
          | inr (room, got, r) ↦
              rw (add_msg_file, accepted full, got)
                (inl (
                  let (sound, at) = load_file_lem s w room hdr body h b whdr r hh in
                  (refl, refl, sound, at)))
        ]
      ]

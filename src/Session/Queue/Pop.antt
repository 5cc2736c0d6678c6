-- ===== src/Session/Queue/Pop.antt =====
-- PopOutgoingMsgQueue drops the first of the messages that wait.
use ip_utils.Base.{
  ℕ, ◌+◌, ◌-◌, ◌≤◌, ◌≡◌, refl, sym, ap, ◌∙◌, false, List, [], ◌∷◌, ◌++◌, arith, ltb, Bytes, length,
  take, drop, length-take, length-drop,
}
use ip_utils.Session.Outgoing.{close_gap, pop_front, pop_outgoing_msg_queue}
use ip_utils.Session.{move, size_sub, Storage, use_mem, use_disc, MsgInfo, Session}
use ip_utils.Session.Queue.{
  extent, footprint, total, file_use, file_count, files, message_of, messages, queue, Message,
  IsSound,
}
use ip_utils.ErrorHandler.{ErrorHandler}
use ip_utils.Session.Queue.Buffer.{drop-take, copy_in_to, length-copy_in}

close_gap_text :
    (block : Bytes) (used n : ℕ)
    → n ≤ used
    → used ≤ length block
    → (length (move block 0 n (size_sub used n)) ≡ length block)
      × (take (used - n) (move block 0 n (size_sub used n)) ≡ drop n (take used block))
close_gap_text block used n hn hu =
    let no_wrap : ltb used n ≡ false = ground arith in
    let kept = take (used - n) (drop n block) in
    let lk : length kept ≡ used - n =
      omega (arith, length-take (used - n) (drop n block), length-drop n block) in
    let whole : n + (used - n) ≡ used = omega arith in
    rw no_wrap (
      length-copy_in block kept 0 (omega arith),
      copy_in_to block kept 0 (used - n) (omega arith) (omega arith)
          ∙ sym (drop-take n (used - n) block)
          ∙ ap (λ (k : ℕ). drop n (take k block)) whole,
    )

module _ {File : Type 0} where
  message_of_one :
      (storage : Storage) (h b : ℕ) (buf : Bytes) (fs : List File) (rest : List (Message File))
      → file_use storage ≤ length fs
      → drop 1 (message_of storage h b buf fs ++ rest) ≡ rest
  message_of_one use_mem h b buf fs rest hf = refl
  message_of_one use_disc h b buf [] rest hf = absurd (omega arith)
  message_of_one use_disc h b buf (f ∷ fs) rest hf = refl

  pop_front_parts :
      (storage : Storage) (s : Session File) (block : Bytes) (h b : ℕ) (ms : List MsgInfo)
      → pop_front storage s block h b ms ≡ record (close_gap s block (extent storage h b)) {
        wfiles = drop (file_use storage) s.wfiles;
        wpending = ms;
      }
  unfolding pop_front close_gap
  pop_front_parts use_mem s block h b ms = refl
  pop_front_parts use_disc s block h b ms = refl

  -- `PopOutgoingMsgQueue` on a sound session with a message that waits drops the first message,
  -- raises no event and leaves a sound session.
  pub pop-queue :
      (s : Session File) (e : ErrorHandler) (m : MsgInfo) (ms : List MsgInfo)
      → IsSound s
      → s.wpending ≡ m ∷ ms
      → let r = pop_outgoing_msg_queue s e in
        IsSound r.0 × (queue r.0 ≡ drop 1 (queue s)) × (r.1 ≡ e)
  unfolding pop_outgoing_msg_queue close_gap queue messages total files
  pop-queue s e m ms w front =
      let n = footprint m in
      let sum : n + total ms ≡ s.wbuf_len = sym (ap total front) ∙ w.used in
      let count : file_count m + files ms ≡ length s.wfiles = sym (ap files front) ∙ w.file_each in
      let (len, text) =
        close_gap_text w.block s.wbuf_len n (omega arith) (omega (arith, w.fits, w.size)) in
      let popped : pop_outgoing_msg_queue s e ≡ (
        record (close_gap s w.block n) { wfiles = drop (file_count m) s.wfiles; wpending = ms },
        e,
      ) =
        rw (pop_outgoing_msg_queue, w.allocated, front)
          (ap (λ (t : Session File). (t, e))
            (pop_front_parts m.storage s w.block m.hdr_len m.body_len ms)) in
      rw popped (
        record {
          block = move w.block 0 n (size_sub s.wbuf_len n);
          allocated = refl;
          size = len ∙ w.size;
          fits = omega (arith, w.fits);
          used = omega arith;
          file_each = omega (arith, length-drop (file_count m) s.wfiles);
        },
        rw (text, queue, w.allocated, front)
            (sym (
              message_of_one m.storage m.hdr_len m.body_len (take s.wbuf_len w.block) s.wfiles _
                (omega arith))),
        refl,
      )

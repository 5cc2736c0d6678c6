-- ===== src/ErrorHandler/Messages.antt =====
-- What an event's report holds: the realm of its first error, and its messages in order.
use ip_utils.Base.{
  ℕ, ◌-◌, ◌≡◌, refl, ◌∙◌, true, false, Option, List, [], ◌∷◌, ◌++◌, map, append_assoc, append-nil,
  arith, Bytes, codes, take, cstr, snprintf-take,
}
use ip_utils.ErrorHandler.{
  scratch_buf_size, no_error, rendered, init, append_msg, clear, print_msgs, print, ErrorHandler,
}

-- The messages with `: ` between them, with no bound.
pub join : List Bytes → Bytes
join [] = []
join (m ∷ []) = cstr m
join (m ∷ n ∷ ms) = cstr m ++ (codes ": " ++ join (n ∷ ms))

print_msgs-join :
    (ms : List Bytes) (out : Bytes)
    → print_msgs (take (scratch_buf_size - 1) out) ms ≡ take (scratch_buf_size - 1) (out ++ join ms)
unfolding print_msgs join
print_msgs-join [] out = rw append-nil
print_msgs-join (m ∷ []) out = snprintf-take scratch_buf_size out (cstr m)
print_msgs-join (m ∷ n ∷ ms) out =
    rw
      (
        snprintf-take scratch_buf_size out (cstr m),
        snprintf-take scratch_buf_size (out ++ cstr m) (codes ": "),
      )
      (print_msgs-join (n ∷ ms) ((out ++ cstr m) ++ codes ": ") ∙ simp append_assoc)

-- `ErrorHandler::print` is the messages in the order of their reports with `: ` between them, cut
-- off at 4095 bytes.
pub print_lem : (e : ErrorHandler) → print e ≡ take 4095 (join e.msgs)
unfolding print
print_lem e = print_msgs-join e.msgs []

-- The reports that the callers add on the way out.
pub annotate : ErrorHandler → List (Option Bytes) → ErrorHandler
annotate e [] = e
annotate e (m ∷ ms) = annotate (append_msg e m) ms

annotate-append_msg :
    (ms : List (Option Bytes)) (e : ErrorHandler)
    → e.event_flag ≡ true
    → ((annotate e ms).event_flag ≡ true)
      × ((annotate e ms).realm ≡ e.realm)
      × ((annotate e ms).sys_errno ≡ e.sys_errno)
      × ((annotate e ms).msgs ≡ e.msgs ++ map rendered ms)
unfolding annotate append_msg
annotate-append_msg [] e h = (h, refl, refl, rw append-nil)
annotate-append_msg (m ∷ ms) e h =
    let (flag, realm, errno, kept) = annotate-append_msg ms (append_msg e m) (ground arith) in
    (flag, realm ∙ rw h, errno ∙ rw h, kept ∙ rw h (simp append_assoc))

-- On a record with no event, an error and the notes that its callers add leave the event set, the
-- realm of the error (not one of a note) and, behind what was there, every message in order.
pub init-annotate :
    (e : ErrorHandler) (realm : ℕ) (format : Option Bytes) (notes : List (Option Bytes))
    → e.event_flag ≡ false
    → let r = annotate (init e realm format) notes in
      (r.event_flag ≡ true)
      × (r.realm ≡ realm)
      × (r.sys_errno ≡ e.sys_errno)
      × (r.msgs ≡ e.msgs ++ (rendered format ∷ map rendered notes))
unfolding init
init-annotate e realm format notes h =
    let (flag, kept_realm, errno, kept) = annotate-append_msg notes (init e realm format) refl in
    (flag, kept_realm ∙ rw h, errno ∙ rw h, kept ∙ rw h (simp append_assoc))

-- On a record with no event, a second error before `clear` keeps the realm of the first, and
-- `clear` then leaves the empty record.
pub init_twice :
    (e : ErrorHandler) (r s : ℕ) (m n : Option Bytes)
    → e.event_flag ≡ false
    → ((init (init e r m) s n).realm ≡ r) × (clear (init (init e r m) s n) ≡ no_error)
unfolding init clear
init_twice e r s m n h = (rw h, refl)

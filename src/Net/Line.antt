-- ===== src/Net/Line.antt =====
-- TCPConn.cc: ReadLine, which reads a byte at a time up to a delimiter.
use ip_utils.Base.{
  ℕ, zero, suc, ◌-◌, ◌≡◌, refl, sym, ap, ◌∙◌, inl, inr, Bool, true, false, not, ◌&&◌, ◌||◌, [], ◌∷◌,
  ◌++◌, append_assoc, append-nil, arith, ltb, ◌==◌, if◌then◌else◌, Bool-cases, Bytes, codes, length,
  take, drop, tail, is_empty, span_taken,
}
use ip_utils.ErrorHandler.{ErrorHandler}
use ip_utils.Net.{print_fd, io_event, Errno, got, failed, Conn, Kernel}
use ip_utils.Net.Read.{Supplies}

-- `text` is what stands before the terminating NUL.
pub record Line (K : Type 0) : Type 0 where
  pub kernel : K
  pub error : ErrorHandler
  pub text : Bytes
  pub count : ℕ
  pub eof : Bool

abbrev ends_line : ℕ → ℕ → Bool
ends_line delimiter c = c == 0 || (c == 13 || c == delimiter)

module _ {K : Type 0} (os : Kernel K) (c : Conn) (delimiter : ℕ) where
  abbrev line_failed : ErrorHandler → Errno → ErrorHandler
  line_failed e errno = io_event e (
      codes "TCPConn::ReadLine(): read(fd: "
      ++ (print_fd c.fd ++ (codes "): " ++ os.strerror errno)))

  -- The loop: `left` is `buf_len - 1 - bytes_read`.
  unfoldable pub line_loop : ℕ → K → ErrorHandler → Bytes → Line K
  line_loop zero k e text = record {
    kernel = k;
    error = e;
    text = text;
    count = length text;
    eof = false;
  }
  line_loop (suc left) k e text =
      let (k', r) = os.read k c.fd 1 in
      elim r [
        | failed errno ↦ record {
          kernel = k';
          error = line_failed e errno;
          text = text;
          count = 0;
          eof = false;
        }
        | got bs ↦ elim bs [
          | [] ↦ record { kernel = k'; error = e; text = text; count = length text; eof = true }
          | x ∷ xs ↦
              let rest = line_loop left k' e (text ++ (x ∷ [])) in
              if ends_line delimiter x
              then record { kernel = k'; error = e; text = text; count = length text; eof = false }
              else rest
        ]
      ]

  -- `TCPConn::ReadLine`, for a buffer of at least one byte.
  unfoldable pub read_line : K → ErrorHandler → ℕ → Line K
  read_line k e buf_len = line_loop (buf_len - 1) k e []

-- The line at the front of a stream: what stands before the first NUL, carriage return or
-- delimiter, as far as it fits.
abbrev pub line_of : ℕ → ℕ → Bytes → Bytes
line_of delimiter room stream = span_taken (λ x. not (ends_line delimiter x)) (take room stream)

-- What is behind the first `n` bytes of a stream and the byte that ends a line, which is there
-- unless the line fills the buffer.
abbrev behind : ℕ → ℕ → Bytes → Bytes
behind n room stream = if ltb n room then tail (drop n stream) else drop n stream

abbrev pub behind_line : ℕ → ℕ → Bytes → Bytes
behind_line delimiter room stream = behind (length (line_of delimiter room stream)) room stream

-- The stream ends before the buffer is full and before a byte that ends the line.
abbrev at_end : ℕ → ℕ → Bytes → Bool
at_end n room stream = ltb n room && is_empty (drop n stream)

abbrev pub ends_in_line : ℕ → ℕ → Bytes → Bool
ends_in_line delimiter room stream = at_end (length (line_of delimiter room stream)) room stream

ltb-suc : (a b : ℕ) → ltb (suc a) (suc b) ≡ ltb a b
ltb-suc a b = ground arith

line_of_more :
    (delimiter room x : ℕ) (stream : Bytes)
    → ends_line delimiter x ≡ false
    → line_of delimiter (suc room) (x ∷ stream) ≡ x ∷ line_of delimiter room stream
unfolding span_taken
line_of_more delimiter room x stream more = rw more refl

line_of_stop :
    (delimiter room x : ℕ) (stream : Bytes)
    → ends_line delimiter x ≡ true
    → line_of delimiter (suc room) (x ∷ stream) ≡ []
unfolding span_taken
line_of_stop delimiter room x stream stop = rw stop refl

line_of_empty : (delimiter room : ℕ) → line_of delimiter (suc room) [] ≡ []
unfolding span_taken
line_of_empty delimiter room = refl

module _ {K : Type 0} (os : Kernel K) (s : Supplies os) (c : Conn) (delimiter : ℕ) where
  -- The text behind `text` is a line of `stream`.
  pub record Reads (e : ErrorHandler) (room : ℕ) (text stream : Bytes) (r : Line K) : Type 0 where
    pub line : r.text ≡ text ++ line_of delimiter room stream
    pub rest : s.pending r.kernel c.fd ≡ behind_line delimiter room stream
    pub eof : r.eof ≡ ends_in_line delimiter room stream
    pub count : r.count ≡ length r.text
    pub quiet : r.error ≡ e

  module _ (gets : (k : K) → (bs : Bytes) × ((os.read k c.fd 1).1 ≡ got bs))
      (e : ErrorHandler) where
    -- What a byte does to the line that starts with it.
    first-Reads :
        (room : ℕ) (text stream : Bytes) (x : ℕ) (r : Line K)
        → ends_line delimiter x ≡ false
        → Reads e room (text ++ (x ∷ [])) stream r
        → Reads e (suc room) text (x ∷ stream) r
    first-Reads room text stream x r more h =
        let longer = line_of_more delimiter room x stream more in
        let n = length (line_of delimiter room stream) in
        record {
          line =
              h.line
              ∙ append_assoc text (x ∷ []) (line_of delimiter room stream)
              ∙ ap (◌++◌ text) (sym longer);
          rest = h.rest ∙ rw (longer, ltb-suc n room) refl;
          eof = h.eof ∙ rw (longer, ltb-suc n room) refl;
          count = h.count;
          quiet = h.quiet;
        }

    -- The byte ends the line, or nothing comes.
    last-Reads :
        (room : ℕ) (k : K) (text stream : Bytes) (eof : Bool)
        → line_of delimiter (suc room) stream ≡ []
        → s.pending k c.fd ≡ tail stream
        → eof ≡ is_empty stream
        → Reads e
            (suc room)
            text
            stream
            (record { kernel = k; error = e; text = text; count = length text; eof = eof })
    last-Reads room k text stream eof none_here next at =
        let some_room : ltb 0 (suc room) ≡ true = ground arith in
        record {
          line = rw none_here (sym (append-nil text));
          rest = next ∙ rw (none_here, some_room) refl;
          eof = at ∙ rw (none_here, some_room) refl;
          count = refl;
          quiet = refl;
        }

    -- One read, by what it gives.
    step-Reads :
        (room : ℕ) (k : K) (text bs : Bytes)
        → (os.read k c.fd 1).1 ≡ got bs
        → ((text' : Bytes)
            → Reads e room text'
                (s.pending (os.read k c.fd 1).0 c.fd)
                (line_loop os c delimiter room (os.read k c.fd 1).0 e text'))
        → Reads e (suc room) text (s.pending k c.fd) (line_loop os c delimiter (suc room) k e text)
    unfolding line_loop
    step-Reads room k text [] gives ih =
        let (small, next, last) = s.gave k c.fd 1 [] gives in
        let empty = last (omega arith) refl in
        rw (empty, gives, line_loop)
          (last-Reads room (os.read k c.fd 1).0 text [] true (line_of_empty delimiter room)
            (sym next ∙ empty) refl)
    step-Reads room k text (x ∷ y ∷ bs) gives ih =
        let (small, next, last) = s.gave k c.fd 1 (x ∷ y ∷ bs) gives in absurd (omega arith)
    step-Reads room k text (x ∷ []) gives ih =
        let (small, next, last) = s.gave k c.fd 1 (x ∷ []) gives in
        let stream = s.pending (os.read k c.fd 1).0 c.fd in
        elim (Bool-cases (ends_line delimiter x)) [
          | inl stop ↦
              rw (next, gives, stop, line_loop)
                (last-Reads room (os.read k c.fd 1).0 text (x ∷ stream) false
                  (line_of_stop delimiter room x stream stop) refl refl)
          | inr more ↦
              rw (next, gives, more, line_loop)
                (first-Reads room text stream x _ more (ih (text ++ (x ∷ []))))
        ]

    line_loop-Reads :
        (room : ℕ) (k : K) (text : Bytes)
        → Reads e room text (s.pending k c.fd) (line_loop os c delimiter room k e text)
    unfolding line_loop span_taken
    line_loop-Reads zero k text = record {
      line = sym (append-nil text);
      rest = refl;
      eof = refl;
      count = refl;
      quiet = refl;
    }
    line_loop-Reads (suc room) k text =
        step-Reads room k text (gets k).0 (gets k).1 (line_loop-Reads room (os.read k c.fd 1).0)

  -- Where no read fails, `ReadLine` gives the line at the front of what the peer sends: what stands
  -- before the first NUL, carriage return or delimiter, cut off at one byte less than the buffer
  -- has. No event is raised, the result is the length of the line, the end of the file is reported
  -- exactly when the stream ends before the line does, and the next call starts behind the byte that
  -- ended the line, or behind the cut.
  pub read_line-Reads :
      (k : K) (e : ErrorHandler) (buf_len : ℕ)
      → ((k' : K) → (bs : Bytes) × ((os.read k' c.fd 1).1 ≡ got bs))
      → Reads e (buf_len - 1) [] (s.pending k c.fd) (read_line os c delimiter k e buf_len)
  unfolding read_line
  read_line-Reads k e buf_len gets = line_loop-Reads gets e (buf_len - 1) k []

-- ===== src/Http/MsgHdrLine.antt =====
-- HTTPFraming.cc, ParseMsgHdr: one line of the message headers,
--   Field-Name ":" field-value *( ";" key "=" value ) CR LF
pub mod Consumed
pub mod RoundTrip
use ip_utils.Base.{
  ℕ, zero, suc, ◌+◌, ◌-◌, Bool, not, ◌&&◌, ◌||◌, Option, none, some, List, [], ◌∷◌, ◌++◌, ◌==◌,
  if◌then◌else◌, Bytes, codes, length, cstr, isspace, head_byte, tail, is_empty, span_taken,
  span_rest, decimal, value,
}
use ip_utils.ErrorHandler
use ip_utils.ErrorHandler.{ErrorHandler, ex_software}
use ip_utils.Http.{Parameter, MsgField, Http}

-- A part of the line: read, cut off by the end of the buffer, or an error with its message.
pub data Read {ℓ} (A : Type ℓ) : Type ℓ where
  got : A → Read A
  short : Read A
  bad : Bytes → Read A

infixl 5 ◌>>=◌
abbrev pub ◌>>=◌ {ℓ κ} : {A : Type ℓ} {B : Type κ} → Read A → (A → Read B) → Read B
got a >>= f = f a
short >>= f = short
bad msg >>= f = bad msg

abbrev pub carriage_return : ℕ
carriage_return = 13

abbrev pub line_feed : ℕ
line_feed = 10

-- `if (n == 0) return 0;`
abbrev pub more : Bytes → Read Bytes
more rest = if is_empty rest then short else got rest

-- Copy into the scratch buffer while the test holds, and the test of `n` behind it.
unfoldable pub field_while : (ℕ → Bool) → Bytes → Read (Bytes × Bytes)
field_while keep rest =
    if is_empty (span_rest keep rest)
    then short
    else got (cstr (span_taken keep rest), span_rest keep rest)

-- Skip the byte at the pointer and white space, with the two tests of `n`.
unfoldable pub skip_delimiter : Bytes → Read Bytes
skip_delimiter rest = do after ← more (tail rest); more (span_rest isspace after)

abbrev pub in_name : ℕ → Bool
in_name c = not (c == b':')

abbrev pub in_key : ℕ → Bool
in_key c = not (c == b'=')

abbrev pub in_value : ℕ → Bool
in_value c = not (c == b';') && not (c == carriage_return)

abbrev pub is_blank : ℕ → Bool
is_blank c = c == 9 || c == b' '

-- One parameter, from its `;` on.
unfoldable pub parse_param : Bytes → Read (Parameter × Bytes)
parse_param rest = do
  at_key ← skip_delimiter rest
  (key, at_equals) ← field_while in_key at_key
  at_value ← skip_delimiter at_equals
  (value, behind) ← field_while in_value at_value
  left ← more (span_rest is_blank behind)
  got (record { key = key; value = value }, left)

-- `while (*buf_ptr != '\r')`; each round takes a byte at least.
unfoldable pub parse_params : ℕ → Bytes → Read (List Parameter × Bytes)
parse_params zero rest = short
parse_params (suc fuel) rest = if head_byte rest == carriage_return then got ([], rest) else do
  (param, left) ← parse_param rest
  (params, end) ← parse_params fuel left
  got (param ∷ params, end)

abbrev pub line_end : ℕ → Bytes → Bytes → Read Bytes
line_end len behind at_feed =
    if head_byte at_feed == line_feed
    then got (tail at_feed)
    else bad (
        codes "HTTPFraming::ParseMsgHdr(): TODO(aka) expected '"
        ++ (line_feed
            ∷ (codes "', got char: "
                ++ (cstr (at_feed ++ behind)
                    ++ (codes " at cnt: " ++ decimal (len - length at_feed))))))

-- The CRLF; what is returned stands behind it.
unfoldable pub parse_crlf : ℕ → Bytes → Bytes → Read Bytes
parse_crlf len behind rest = more (tail rest) >>= line_end len behind

unfoldable pub parse_line : Bytes → Bytes → Read (MsgField × Bytes)
parse_line buf behind =
    if isspace (head_byte buf)
    then bad (
        codes
          "HTTPFraming::ParseMsgHdr(): TODO(aka) found space signaling line continuation at buf[0]: "
        ++ cstr (buf ++ behind))
    else do
      (name, at_colon) ← field_while in_name buf
      at_value ← skip_delimiter at_colon
      (value, at_end) ← field_while in_value at_value
      (params, end) ← parse_params (length at_end + 1) at_end
      rest ← parse_crlf (length buf) behind end
      got (record { field_name = name; field_value = value; parameters = params }, rest)

-- What the object, the error handler and the count of bytes used become.
abbrev pub conclude : Http → ErrorHandler → ℕ → Read (MsgField × Bytes) → Http × ErrorHandler × ℕ
conclude h e len (got (field, rest)) =
    (record h { msg_hdrs = h.msg_hdrs ++ (field ∷ []) }, e, len - length rest)
conclude h e len short = (h, e, 0)
conclude h e len (bad msg) = (h, ErrorHandler.init e ex_software (some msg), 0)

-- `ParseMsgHdr(buf, len)`, where `behind` is what stands in memory behind the buffer.
unfoldable pub parse_msg_hdr : Http → ErrorHandler → Option Bytes → Bytes → Http × ErrorHandler × ℕ
parse_msg_hdr h e none behind = (
  h,
  ErrorHandler.init e ex_software
      (some (codes "HTTPFraming::ParseMsgHdr(): TODO(aka) buf is NULL")),
  0,
)
parse_msg_hdr h e (some buf) behind =
    if is_empty buf then (h, e, 0) else conclude h e (length buf) (parse_line buf behind)

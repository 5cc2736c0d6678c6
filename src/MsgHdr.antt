-- ===== src/MsgHdr.antt =====
-- MsgHdr.cc, MsgHdr.h, BasicFraming.h: the framing header of a message, of the BASIC or the HTTP
-- kind, and what a session reads from it.
pub mod BodyLen
pub mod InitFromBuf
use ip_utils.Base.{
  ℕ, ◌%◌, ◌^◌, Bool, true, false, not, ◌&&◌, none, some, ◌==◌, if◌then◌else◌, codes, print_int,
}
use ip_utils.ErrorHandler
use ip_utils.ErrorHandler.{ErrorHandler, append_msg, ex_software}
use ip_utils.Http.{empty_http, content_length, msg_len, append_msg_hdr, MsgType, request, Http}

-- `struct BasicFramingHdr`
pub record BasicFramingHdr : Type 0 where
  pub id : ℕ
  pub type : ℕ
  pub type_id : ℕ
  pub opt : ℕ
  pub msg_id : ℕ
  pub lamport : ℕ
  pub len : ℕ

pub record HdrStorage : Type 0 where
  pub basic : BasicFramingHdr
  pub http : Http

pub record MsgHdr : Type 0 where
  pub msg_id : ℕ
  pub type : ℕ
  pub hdr : HdrStorage

abbrev pub type_none : ℕ
type_none = 0

abbrev pub type_basic : ℕ
type_basic = 1

abbrev pub type_http : ℕ
type_http = 2

abbrev pub empty_basic : BasicFramingHdr
empty_basic = record { id = 0; type = 0; type_id = 0; opt = 0; msg_id = 0; lamport = 0; len = 0 }

-- `MsgHdr(type)`
abbrev pub new_msg_hdr : ℕ → MsgHdr
new_msg_hdr type = record {
  msg_id = 0;
  type = type;
  hdr = record { basic = empty_basic; http = empty_http };
}

unfoldable pub body_len : MsgHdr → ℕ
body_len m =
    if m.type == type_basic
    then m.hdr.basic.len
    else if m.type == type_http
    then msg_len m.hdr.http
    else 0

unfoldable pub basic_hdr : MsgHdr → BasicFramingHdr
basic_hdr m = if m.type == type_basic then m.hdr.basic else empty_basic

unfoldable pub http_hdr : MsgHdr → Http
http_hdr m = if m.type == type_http then m.hdr.http else empty_http

-- What `AppendMsgHdr` makes of the header of an HTTP message.
abbrev put_http : MsgHdr → Http × ErrorHandler → MsgHdr × ErrorHandler
put_http m (http, e) = (record m { hdr = record m.hdr { http = http } }, e)

unfoldable pub set_body_len : MsgHdr → ErrorHandler → ℕ → MsgHdr × ErrorHandler
set_body_len m e len =
    if m.type == type_basic
    then (record m { hdr = record m.hdr { basic = record m.hdr.basic { len = len % 2 ^ 16 } } }, e)
    else if m.type == type_http
    then put_http m
        (append_msg_hdr m.hdr.http e (some content_length) (some (print_int len)) none none)
    else (m, e)

unfoldable pub clear : MsgHdr → MsgHdr
clear m = new_msg_hdr type_none

-- `Init(msg_id, http)` and `Init(msg_id, basic)`
unfoldable pub init_http : MsgHdr → ErrorHandler → ℕ → Http → MsgHdr × ErrorHandler
init_http m e msg_id http =
    if not (m.type == type_http)
    then (m, ErrorHandler.init e ex_software (some (codes "MsgHdr::Init(): type is not HTTP")))
    else (record m { msg_id = msg_id; hdr = record m.hdr { http = http } }, e)

unfoldable pub init_basic : MsgHdr → ErrorHandler → ℕ → BasicFramingHdr → MsgHdr × ErrorHandler
init_basic m e msg_id basic =
    if not (m.type == type_basic)
    then (m, ErrorHandler.init e ex_software (some (codes "MsgHdr::Init(): type is not BASIC")))
    else (record m { msg_id = msg_id; hdr = record m.hdr { basic = basic } }, e)

abbrev is_request : MsgType → Bool
is_request request = true
is_request _ = false

unfoldable pub is_msg_request : MsgHdr → Bool
is_msg_request m = m.type == type_http && is_request m.hdr.http.msg_type

unfoldable pub is_msg_status_normal : MsgHdr → Bool
is_msg_status_normal m = m.type == type_http && m.hdr.http.status_code == 200

-- The setters; `msg_id` is a uint16_t and `type` a uint8_t.
unfoldable pub set_msg_id : MsgHdr → ℕ → MsgHdr
set_msg_id m msg_id = record m { msg_id = msg_id % 2 ^ 16 }

unfoldable pub set_type : MsgHdr → ℕ → MsgHdr
set_type m type = record m { type = type % 2 ^ 8 }

unfoldable pub set_hdr : MsgHdr → HdrStorage → MsgHdr
set_hdr m hdr = record m { hdr = hdr }

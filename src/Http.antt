-- ===== src/Http.antt =====
-- HTTPFraming.cc, HTTPFraming.h, RFC822MsgHdr.h: the fields of an HTTP framing object, the searches
-- in its message headers and its mutators. An int that holds a number read from a message is its
-- 32-bit pattern.
pub mod Headers
pub mod MsgHdrLine
pub mod Print
pub mod StartLine
pub mod Request
pub mod Chunked
pub mod Response
pub mod InitFromBuf
use ip_utils.Base.{
  ℕ, zero, suc, ◌+◌, ◌-◌, Bool, false, not, ◌&&◌, Option, none, some, List, [], ◌∷◌, ◌++◌, ltb, leb,
  if◌then◌else◌, Bytes, codes, get_or, cstr, strncasecmp_eq, same_name, strtol,
}
use ip_utils.ErrorHandler
use ip_utils.ErrorHandler.{ErrorHandler, ex_software}
use ip_utils.Url.{empty_url, init, Url}

pub record Parameter : Type 0 where
  pub key : Bytes
  pub value : Bytes

-- `struct rfc822_msg_hdr`
pub record MsgField : Type 0 where
  pub field_name : Bytes
  pub field_value : Bytes
  pub parameters : List Parameter

pub data MsgType : Type 0 where
  not_ready request response : MsgType

pub record Http : Type 0 where
  pub msg_type : MsgType
  pub major : ℕ
  pub minor : ℕ
  pub method : ℕ
  pub uri : Url
  pub status_code : ℕ
  pub msg_hdrs : List MsgField

-- The method numbers.
abbrev pub method_null : ℕ
method_null = 0

abbrev pub method_get : ℕ
method_get = 1

abbrev pub method_head : ℕ
method_head = 2

abbrev pub method_post : ℕ
method_post = 3

abbrev pub method_put : ℕ
method_put = 4

abbrev pub method_delete : ℕ
method_delete = 5

abbrev pub method_names : List Bytes
method_names =
    codes "NONE"
    ∷ codes "GET"
    ∷ codes "HEAD"
    ∷ codes "POST"
    ∷ codes "PUT"
    ∷ codes "DELETE"
    ∷ codes "TRACE"
    ∷ codes "CONNECT"
    ∷ codes "OPTIONS"
    ∷ []

-- A read of an array; `none` is a read behind its end.
abbrev pub get_elem? {ℓ} : {A : Type ℓ} → List A → ℕ → Option A
get_elem? [] i = none
get_elem? (x ∷ xs) zero = some x
get_elem? (x ∷ xs) (suc i) = get_elem? xs i

-- `method_name(method)` for a method that is not negative.
unfoldable pub method_name : ℕ → Option Bytes
method_name method =
    if ltb 9 method then get_elem? method_names 0 else get_elem? method_names method

unfoldable pub method_id_from : ℕ → List Bytes → Bytes → Option ℕ
method_id_from i [] name = none
method_id_from i (m ∷ ms) name =
    if strncasecmp_eq 9 m (cstr name) then some i else method_id_from (i + 1) ms name

-- `method_id`; `none` is -1.
unfoldable pub method_id : Bytes → Option ℕ
unfolding method_id_from
method_id = method_id_from 0 method_names

abbrev pub code_200_phrases : List Bytes
code_200_phrases =
    codes "OK"
    ∷ codes "Created"
    ∷ codes "Accepted"
    ∷ codes "Non-Authoritative Information"
    ∷ codes "No Content"
    ∷ []

abbrev pub code_400_phrases : List Bytes
code_400_phrases =
    codes "Bad Request"
    ∷ codes "Unauthorized"
    ∷ codes "Payment Required"
    ∷ codes "Forbidden"
    ∷ codes "Method Not Allowed"
    ∷ []

abbrev pub code_500_phrases : List Bytes
code_500_phrases =
    codes "Internal Server Error"
    ∷ codes "Not Implemented"
    ∷ codes "Bad Gateway"
    ∷ codes "Service Unavailable"
    ∷ codes "Gateway Time-out"
    ∷ codes "HTTP Version not supported"
    ∷ []

abbrev pub between : ℕ → ℕ → ℕ → Bool
between lo hi n = leb lo n && leb n hi

unfoldable pub status_code_phrase : ℕ → Bytes
status_code_phrase code =
    if between 200 204 code
    then get_or code_200_phrases (code - 200) []
    else if between 400 404 code
    then get_or code_400_phrases (code - 400) []
    else if between 500 505 code
    then get_or code_500_phrases (code - 500) []
    else codes "NULL Status Phrase"

-- The constructor, and `HTTPFraming::clear`.
abbrev pub empty_http : Http
empty_http = record {
  msg_type = not_ready;
  major = 1;
  minor = 1;
  method = method_null;
  uri = empty_url;
  status_code = 0;
  msg_hdrs = [];
}

-- The loop over the message headers that each of the accessors makes.
unfoldable pub find_field : Bytes → List MsgField → Option MsgField
find_field name [] = none
find_field name (h ∷ hs) = if same_name h.field_name name then some h else find_field name hs

abbrev value_or : Bytes → Option MsgField → Bytes
value_or default none = default
value_or default (some h) = h.field_value

abbrev length_or_zero : Option MsgField → ℕ
length_or_zero none = 0
length_or_zero (some h) = strtol (cstr h.field_value)

abbrev pub content_length : Bytes
content_length = codes "Content-Length"

-- `msg_len`, a size_t.
unfoldable pub msg_len : Http → ℕ
unfolding find_field
msg_len h = length_or_zero (find_field content_length h.msg_hdrs)

unfoldable pub content_type : Http → Bytes
unfolding find_field
content_type h = value_or (codes "NULL-Content-Type") (find_field (codes "Content-Type") h.msg_hdrs)

unfoldable pub transfer_encoding : Http → Bytes
unfolding find_field
transfer_encoding h = value_or [] (find_field (codes "Transfer-Encoding") h.msg_hdrs)

abbrev pub empty_field : MsgField
empty_field = record { field_name = []; field_value = []; parameters = [] }

abbrev field_or_empty : Option MsgField → MsgField
field_or_empty none = empty_field
field_or_empty (some h) = h

unfoldable pub msg_hdr : Http → Option Bytes → MsgField
unfolding find_field
msg_hdr h none = empty_field
msg_hdr h (some name) = field_or_empty (find_field name h.msg_hdrs)

abbrev pub connection_name : Bytes
connection_name = codes "Connection"

abbrev pub connection_value : Bool → Bytes
connection_value close = if close then codes "close" else codes "open"

-- The loop of `set_connection`, with the header that it adds at the end of the list.
unfoldable pub update_connection : Bool → List MsgField → List MsgField
update_connection close [] =
    record { field_name = connection_name; field_value = connection_value close; parameters = [] }
    ∷ []
update_connection close (h ∷ hs) =
    if same_name h.field_name connection_name
    then record h { field_value = connection_value close } ∷ hs
    else h ∷ update_connection close hs

unfoldable pub set_connection : Http → Bool → Http
unfolding update_connection
set_connection h close = record h { msg_hdrs = update_connection close h.msg_hdrs }

unfoldable pub init_request : ℕ → Url → Http
init_request method uri = record empty_http { msg_type = request; method = method; uri = uri }

unfoldable pub init_response : ℕ → Bool → Http
init_response code close =
    set_connection (record empty_http { msg_type = response; status_code = code }) close

abbrev duplicate_msg : Bytes
duplicate_msg =
    codes "HTTPFraming::AppendMsgHdr(): TODO(aka) Attempting to install, but already exists!"

abbrev push_new : Http → ErrorHandler → MsgField → Option MsgField → Http × ErrorHandler
push_new h e field none = (record h { msg_hdrs = h.msg_hdrs ++ (field ∷ []) }, e)
push_new h e field (some _) = (h, ErrorHandler.init e ex_software (some duplicate_msg))

-- `AppendMsgHdr(const struct rfc822_msg_hdr&)`
unfoldable pub append_field : Http → ErrorHandler → MsgField → Http × ErrorHandler
append_field h e field = push_new h e field (find_field field.field_name h.msg_hdrs)

abbrev parameter_of : Option Bytes → Option Bytes → List Parameter
parameter_of (some key) (some value) = record { key = key; value = value } ∷ []
parameter_of _ _ = []

-- `AppendMsgHdr(field_name, field_value, key, value)`, on C strings that may be NULL.
unfoldable pub append_msg_hdr :
    Http
    → ErrorHandler
    → Option Bytes
    → Option Bytes
    → Option Bytes
    → Option Bytes
    → Http × ErrorHandler
append_msg_hdr h e none value key param = (
  h,
  ErrorHandler.init e ex_software (some (codes "HTTPFraming::AppendMsgHdr(): field_name is NULL")),
)
append_msg_hdr h e (some name) none key param = (
  h,
  ErrorHandler.init e ex_software (some (codes "HTTPFraming::AppendMsgHdr(): field_value is NULL")),
)
append_msg_hdr h e (some name) (some value) key param =
    push_new h e
      (record { field_name = name; field_value = value; parameters = parameter_of key param })
      (find_field name h.msg_hdrs)

unfoldable pub set_uri : Http → Url → Http
set_uri h uri = record h { uri = uri }

unfoldable pub set_method : Http → ℕ → Http
set_method h method = record h { method = method }

abbrev pub type_names : List Bytes
type_names = codes "NOT READY" ∷ codes "REQUEST" ∷ codes "RESPONSE" ∷ []

-- `start_line_name(type)` for a type that is not negative; `none` is a read behind the array.
unfoldable pub start_line_name : ℕ → Option Bytes
start_line_name type = if ltb 3 type then get_elem? type_names 0 else get_elem? type_names type

-- `IsWSDLRequest`, which is not written yet.
abbrev pub is_wsdl_request : Http → Bool
is_wsdl_request h = false

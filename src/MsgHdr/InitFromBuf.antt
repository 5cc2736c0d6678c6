-- ===== src/MsgHdr/InitFromBuf.antt =====
-- MsgHdr.cc: InitFromBuf, hdr_len, print, print_hdr and GetMediaTypeExt.
use ip_utils.Base.{
  ℕ, ◌+◌, ◌%◌, ◌^◌, Bool, true, false, not, Option, none, some, List, [], ◌∷◌, ◌++◌, ltb, ◌==◌,
  if◌then◌else◌, Bytes, codes, length, cstr, snprintf, is_empty, decimal, strncasecmp_eq,
}
use ip_utils.Http.Response.{add_say, Parsed}
use ip_utils.Http.Chunked.{ChunkBuf}
use ip_utils.Http.InitFromBuf.{init_http_from_buf}
use ip_utils.Http.Print.Hdr.{print_start_line}
use ip_utils.MsgHdr.{type_basic, type_http, BasicFramingHdr, MsgHdr}
use ip_utils.Http.{MsgField}
use ip_utils.ErrorHandler
use ip_utils.Http.Print.Hdr
use ip_utils.ErrorHandler.{ErrorHandler, append_msg, ex_dataerr}

-- `sizeof(struct BasicFramingHdr)`
abbrev pub basic_hdr_size : ℕ
basic_hdr_size = 10

unfoldable pub hdr_len : MsgHdr → ℕ
hdr_len m =
    if m.type == type_basic
    then basic_hdr_size
    else if m.type == type_http
    then Hdr.hdr_len m.hdr.http false
    else 0

-- What a call leaves: the object, the errors, the global `msg_id_hash`, the buffer for a chunked
-- body, `*bytes_used`, and what it returns.
pub record Inited : Type 0 where
  pub hdr : MsgHdr
  pub error : ErrorHandler
  pub hash : ℕ
  pub chunked : ChunkBuf
  pub bytes_used : ℕ
  pub ok : Bool

-- The buffer of the caller and the global counter before the call. `pointer` is what the bytes of
-- the parameter `buf`, the pointer itself, and of the two behind it on the stack read as; `realloc`
-- says whether realloc(3) of a size succeeds.
pub record Around : Type 0 where
  pub realloc : ℕ → Bool
  pub pointer : BasicFramingHdr
  pub hash : ℕ
  pub chunked : ChunkBuf
  pub bytes_used : ℕ

-- The BASIC kind copies from `&buf`.
abbrev pub init_basic_hdr : Around → MsgHdr → ErrorHandler → ℕ → Inited
init_basic_hdr a m e len =
    if ltb len basic_hdr_size
    then record {
      hdr = m;
      error = e;
      hash = a.hash;
      chunked = a.chunked;
      bytes_used = a.bytes_used;
      ok = false;
    }
    else record {
      hdr = record m { msg_id = a.pointer.msg_id; hdr = record m.hdr { basic = a.pointer } };
      error = e;
      hash = a.hash;
      chunked = a.chunked;
      bytes_used = basic_hdr_size;
      ok = true;
    }

-- `++msg_id_hash`, a uint16_t.
abbrev pub next_id : ℕ → ℕ
next_id hash = (hash + 1) % 2 ^ 16

abbrev msg_hdr_say : ErrorHandler → ErrorHandler
msg_hdr_say = add_say (codes "MsgHdr::InitFromBuf(): ")

-- What `HTTPFraming::InitFromBuf` comes to.
unfoldable pub init_http_hdr : Around → MsgHdr → Parsed → Option ℕ → Inited
init_http_hdr a m p none = record {
  hdr = record m { hdr = record m.hdr { http = p.http } };
  error = msg_hdr_say p.error;
  hash = a.hash;
  chunked = p.chunked;
  bytes_used = a.bytes_used;
  ok = false;
}
init_http_hdr a m p (some used) = record {
  hdr = record m { msg_id = next_id a.hash; hdr = record m.hdr { http = p.http } };
  error = p.error;
  hash = next_id a.hash;
  chunked = p.chunked;
  bytes_used = used;
  ok = true;
}

abbrev pub http_parse : Around → ErrorHandler → Option Bytes → Bytes → Parsed
http_parse a e buf behind = init_http_from_buf a.realloc e buf behind 0 a.chunked

abbrev pub buf_len : Option Bytes → ℕ
buf_len none = 0
buf_len (some buf) = length buf

-- `MsgHdr::InitFromBuf`; a type that is not known sets an event and returns true.
unfoldable pub init_from_buf : Around → MsgHdr → ErrorHandler → Option Bytes → Bytes → Inited
init_from_buf a m e buf behind =
    if m.type == type_basic
    then init_basic_hdr a m e (buf_len buf)
    else if m.type == type_http
    then init_http_hdr a m (http_parse a e buf behind) (http_parse a e buf behind).used
    else record {
      hdr = m;
      error =
          ErrorHandler.init e ex_dataerr
            (some (codes "MsgHdr::InitFromBuf(): unknown type: " ++ (decimal m.type ++ codes ".")));
      hash = a.hash;
      chunked = a.chunked;
      bytes_used = a.bytes_used;
      ok = true;
    }

abbrev emit_1024 : Bytes → Bytes
emit_1024 = snprintf 1024 []

abbrev print_basic : ℕ → BasicFramingHdr → Bytes
print_basic msg_id b =
    codes "msg_id("
    ++ (decimal msg_id
        ++ (codes "):hdr.id("
            ++ (decimal b.id
                ++ (codes "):hdr.type("
                    ++ (decimal b.type
                        ++ (codes "):hdr.type_id("
                            ++ (decimal b.type_id
                                ++ (codes "):hdr.time("
                                    ++ (decimal b.lamport
                                        ++ (codes "):hdr.len("
                                            ++ (decimal b.len ++ codes ")")))))))))))

unfoldable pub print : MsgHdr → Bytes
print m =
    if m.type == type_basic
    then emit_1024 (print_basic m.msg_id m.hdr.basic)
    else if m.type == type_http
    then emit_1024 (decimal m.msg_id ++ (b':' ∷ print_start_line m.hdr.http false))
    else []

unfoldable pub print_hdr : MsgHdr → ℕ → Bytes
unfolding print
print_hdr m offset =
    if m.type == type_basic
    then print m
    else if m.type == type_http
    then Hdr.print_hdr m.hdr.http offset false
    else []

-- The first field whose name begins with "Content-Type".
unfoldable pub media_type : List MsgField → Bytes
media_type [] = []
media_type (h ∷ hs) =
    if strncasecmp_eq 12 (cstr h.field_name) (codes "Content-Type")
    then cstr h.field_value
    else media_type hs

-- The media types in the order of the tests, with their extensions.
abbrev pub media_exts : List (Bytes × Bytes)
media_exts =
    (codes "video/mpeg", codes "mpg")
    ∷ (codes "video/mp4", codes "mp4")
    ∷ (codes "video/quicktime", codes "mov")
    ∷ (codes "video/ogg", codes "ogg")
    ∷ (codes "application/x-tar", codes "tar")
    ∷ (codes "image/gif", codes "gif")
    ∷ (codes "image/png", codes "png")
    ∷ (codes "text/plain", codes "txt")
    ∷ (codes "text/xml", codes "xml")
    ∷ []

unfoldable pub ext_of : List (Bytes × Bytes) → Bytes → Bytes
ext_of [] media = codes "dat"
ext_of ((name, ext) ∷ rest) media =
    if strncasecmp_eq (length name) media name then ext else ext_of rest media

unfoldable pub get_media_type_ext : MsgHdr → Bytes
unfolding media_type ext_of
get_media_type_ext m =
    let media = media_type m.hdr.http.msg_hdrs in
    if not (m.type == type_http) then [] else if is_empty media then [] else ext_of media_exts media

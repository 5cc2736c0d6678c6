-- ===== src/Http/Response.antt =====
-- HTTPFraming.cc, ParseResponseHdr: the status line, the message headers, and the chunked body
-- behind them.
pub mod Cleared
use ip_utils.Base.{
  ℕ, ◌+◌, ◌-◌, Bool, not, Option, none, some, ◌++◌, ◌==◌, if◌then◌else◌, Bytes, codes, length, take,
  drop, cstr, ◌>>=◌, head_byte, tail, is_empty, span_rest, Step, next, halt, decimal, same_name,
}
use ip_utils.Http.{transfer_encoding, response, Http}
use ip_utils.Http.MsgHdrLine.{carriage_return, line_feed}
use ip_utils.Http.StartLine.{
  hdr_event, skip_byte, expect, parse_number, set_status_code, parse_version, parse_msg_hdrs,
  clear_hdrs, clearing, skip_leading_space, HdrWalk,
}
use ip_utils.Http.Request.{expected_return, expected_feed}
use ip_utils.Http.Chunked.{parse_chunked_msg_body, ChunkBuf}
use ip_utils.ErrorHandler
use ip_utils.ErrorHandler.{ErrorHandler, append_msg, ex_software}

abbrev pub response_text : Bytes → Bytes
response_text text = codes "HTTPFraming::ParseResponseHdr(): TODO(aka) " ++ text

abbrev pub not_return : ℕ → Bool
not_return c = not (c == carriage_return)

-- The reason phrase, which is not kept.
unfoldable pub skip_phrase : HdrWalk → Step HdrWalk
skip_phrase w =
    let rest = span_rest not_return w.rest in
    if is_empty rest then halt (record w { rest = rest }) else next (record w { rest = rest })

unfoldable pub status_line : ℕ → Bytes → HdrWalk → Step HdrWalk
status_line len behind w =
    parse_version len behind (response_text (codes "expected '.', got char: "))
      (response_text (codes "received unknown HTTP header version: ")) w
    >>= expect len behind (response_text (codes "expected SP, got char: ")) b' '
    >>= parse_number set_status_code
    >>= expect len behind (response_text (codes "expected SP, got char: ")) b' '
    >>= skip_phrase
    >>= expect len behind (response_text expected_return) carriage_return
    >>= expect len behind (response_text expected_feed) line_feed

-- `if (error.Event()) error.AppendMsg(text);`
abbrev pub add_say : Bytes → ErrorHandler → ErrorHandler
add_say text e = if e.event_flag then append_msg e (some text) else e

abbrev pub response_say : ErrorHandler → ErrorHandler
response_say = add_say (codes "HTTPFraming::ParseResponseHdr(): ")

abbrev pub saying : Step HdrWalk → Step HdrWalk
saying (next w) = next w
saying (halt w) = halt (record w { error = response_say w.error })

-- The line feed of the empty line, which may end the buffer.
unfoldable pub last_feed : ℕ → Bytes → HdrWalk → Step HdrWalk
last_feed len behind w =
    if head_byte w.rest == line_feed
    then next (record w { rest = tail w.rest })
    else hdr_event
        (response_text expected_feed
          ++ (cstr (w.rest ++ behind) ++ (codes " at cnt: " ++ decimal (len - length w.rest))))
        w

unfoldable pub response_hdrs : ℕ → Bytes → HdrWalk → Step HdrWalk
response_hdrs len behind w =
    clearing
      (saying (parse_msg_hdrs (length w.rest + 1) behind w) >>= skip_byte >>= last_feed len behind)

unfoldable pub is_chunked : Http → Bool
is_chunked h = same_name (codes "chunked") (transfer_encoding h)

-- A call's outcome: the object, the errors, the buffer for a chunked body, and the count of bytes
-- used of a call that returns true.
pub record Parsed : Type 0 where
  pub http : Http
  pub error : ErrorHandler
  pub chunked : ChunkBuf
  pub used : Option ℕ

abbrev pub refused : HdrWalk → ChunkBuf → Parsed
refused w b = record { http = w.http; error = w.error; chunked = b; used = none }

-- What `ParseChunkedMsgBody` comes to, behind `used` bytes of header.
abbrev pub after_chunks : ℕ → HdrWalk → ChunkBuf × ErrorHandler × Option ℕ → Parsed
after_chunks used w (b, e, some m) = record {
  http = w.http;
  error = e;
  chunked = b;
  used = some (used + m);
}
after_chunks used w (b, e, none) = refused (clear_hdrs (record w { error = response_say e })) b

-- The body behind the header. The call hands over `len - n` as the size of the buffer, the count of
-- the bytes before it.
unfoldable pub response_body : (ℕ → Bool) → ℕ → Bytes → ChunkBuf → HdrWalk → Parsed
response_body realloc len behind b w =
    let used = len - length w.rest in
    let done : Parsed = record { http = w.http; error = w.error; chunked = b; used = some used } in
    if not (is_chunked w.http)
    then done
    else if is_empty w.rest
    then refused (clear_hdrs w) b
    else after_chunks used w (
        parse_chunked_msg_body realloc w.error (some (take used (w.rest ++ behind)))
          (drop used (w.rest ++ behind)) b)

abbrev pub response_end : (ℕ → Bool) → ℕ → Bytes → ChunkBuf → Step HdrWalk → Parsed
response_end realloc len behind b (halt w) = refused w b
response_end realloc len behind b (next w) =
    response_body realloc len behind b (record w { http = record w.http { msg_type = response } })

unfoldable pub parse_response_hdr :
    (ℕ → Bool) → Http → ErrorHandler → Option Bytes → Bytes → ChunkBuf → Parsed
parse_response_hdr realloc h e none behind b = record {
  http = h;
  error = ErrorHandler.init e ex_software (some (response_text (codes "buf is NULL")));
  chunked = b;
  used = none;
}
parse_response_hdr realloc h e (some buf) behind b = response_end realloc (length buf) behind b (
    status_line (length buf) behind
      (skip_leading_space (record { http = h; error = e; rest = buf }))
    >>= response_hdrs (length buf) behind)

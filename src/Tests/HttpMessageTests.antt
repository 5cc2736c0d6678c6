-- ===== src/Tests/HttpMessageTests.antt =====
-- HTTPFraming.cc, a whole header and a chunked body, on concrete inputs.
use ip_utils.Base.{
  ◌<◌, ◌≡◌, refl, true, false, none, some, List, [], ◌∷◌, ◌++◌, arith, Bytes, codes, length,
  isspace, isdigit, span_taken, span_rest, kept_all, decimal, value, strncasecmp_eq, same_name,
  strtol,
}
use ip_utils.Url.{in_value, Url}
use ip_utils.Url.Parse.{not_colon, in_host, to_path_end, init_from_buf}
use ip_utils.Url.RoundTrip.{print_absolute_uri-IsWritable, IsWritable}
use ip_utils.Url.RoundTrip.Pieces.{plain}
use ip_utils.Url.RoundTrip.PrintText.{query_text}
use ip_utils.Http.{empty_http, transfer_encoding, MsgField, request, Http}
use ip_utils.Http.StartLine.{
  skip_byte, expect, parse_number, known_version, check_version, skip_http_slash, parse_version,
  parse_msg_hdrs, HdrWalk,
}
use ip_utils.Http.MsgHdrLine.{
  field_while, in_name, parse_param, parse_params, parse_crlf, parse_line, parse_msg_hdr,
}
use ip_utils.Http.MsgHdrLine.RoundTrip.{kept_in, params_text, crlf, line_text, IsLine}
use ip_utils.Http.Print.Text.{lines_text}
use ip_utils.Http.Print.Hdr.{print_hdr}
use ip_utils.Http.Request.{match_method, parse_method, parse_uri, request_line, parse_request_hdr}
use ip_utils.Http.Request.PrintText.{IsRequest}
use ip_utils.Http.Request.Cleared.{parse_request_hdr-cleared}
use ip_utils.Http.Response.{
  skip_phrase, status_line, last_feed, response_hdrs, is_chunked, response_body, parse_response_hdr,
}
use ip_utils.Http.Response.Cleared.{parse_response_hdr-cleared}
use ip_utils.Http.Chunked.{ChunkBuf, ChunkWalk}
use ip_utils.Http.Chunked.Decode.{SentChunk}
use ip_utils.Http.InitFromBuf.{init_http_from_buf}
use ip_utils.Http.InitFromBuf.RoundTrip.{as_request, init_http_from_buf-print_hdr}
use ip_utils.Http.InitFromBuf.Bodyless.{as_unfinished, init_http_from_buf-bodyless}
use ip_utils.ErrorHandler.{no_error}

abbrev site : Url
site = record {
  scheme = codes "http";
  host = codes "a.org";
  port = 80;
  path = codes "x";
  query = [];
  fragment = [];
}

abbrev host_field : MsgField
host_field = record { field_name = codes "Host"; field_value = codes "a.org"; parameters = [] }

abbrev pub get_site : Http
get_site = record empty_http {
  msg_type = request;
  method = 1;
  uri = site;
  msg_hdrs = host_field ∷ [];
}

site-IsWritable : IsWritable site
unfolding decimal isspace isdigit query_text
site-IsWritable = record {
  scheme = kept_all (plain not_colon) (codes "http") refl;
  scheme_some = refl;
  host = kept_all (plain in_host) (codes "a.org") refl;
  host_some = refl;
  port_some = refl;
  port_fits = omega arith;
  path = kept_all (plain to_path_end) (codes "x") refl;
  query = tt;
  fragment = tt;
  fits = omega arith;
}

host_field-IsLine : IsLine host_field
unfolding isspace
host_field-IsLine = (
  (refl, refl, kept_all (kept_in in_name) (codes "Host") refl),
  (refl, refl, kept_all (kept_in in_value) (codes "a.org") refl),
  tt,
)

pub get_site-IsRequest : IsRequest get_site
unfolding known_version decimal lines_text params_text
get_site-IsRequest = record {
  method = refl;
  version = refl;
  uri = site-IsWritable;
  lines = (host_field-IsLine, tt);
  fits = rw (print_absolute_uri-IsWritable site site-IsWritable) (omega arith);
}

chunk_buf : ChunkBuf
chunk_buf = record { held = some []; size = 4096 }

init_http_from_buf-print_hdr_example :
    init_http_from_buf
      (λ n. true)
      no_error
      (some (print_hdr get_site 0 false ++ codes "x"))
      []
      80
      chunk_buf
    ≡ record {
      http = as_request get_site;
      error = no_error;
      chunked = chunk_buf;
      used = some (length (print_hdr get_site 0 false));
    }
init_http_from_buf-print_hdr_example =
    init_http_from_buf-print_hdr (λ n. true) get_site no_error (codes "x") [] 80 chunk_buf
      get_site-IsRequest refl refl

abbrev two_chunks : List SentChunk
two_chunks =
    record { digits = codes "3"; payload = codes "abc" }
    ∷ record { digits = codes "2"; payload = codes "de" }
    ∷ []

init_http_from_buf-bodyless_example :
    init_http_from_buf (λ n. true) no_error (some (print_hdr get_site 0 false)) [] 80 chunk_buf
    ≡ record { http = as_unfinished get_site; error = no_error; chunked = chunk_buf; used = none }
init_http_from_buf-bodyless_example =
    init_http_from_buf-bodyless (λ n. true) get_site no_error [] 80 chunk_buf get_site-IsRequest
      refl

get_walk : HdrWalk
get_walk = record { http = empty_http; error = no_error; rest = line_text host_field ++ crlf }

get_walk_short : length get_walk.rest < 20
unfolding get_walk params_text
get_walk_short = omega arith

chunk_walk : ChunkWalk
chunk_walk = record { body = []; size = 4; error = no_error; rest = codes "1\r\na\r\n0\r\n\r\n" }

chunk_walk_short : length chunk_walk.rest < 20
unfolding chunk_walk
chunk_walk_short = omega arith

-- A request line that is cut off.
cut_request :
    (parse_request_hdr empty_http no_error (some (codes "GET http://a.org")) [] 80).2 ≡ none
unfolding parse_request_hdr request_line parse_method match_method expect skip_byte parse_uri
    init_from_buf strncasecmp_eq span_rest span_taken isspace isdigit
cut_request = refl

parse_request_hdr-cleared_example :
    (parse_request_hdr empty_http no_error (some (codes "GET http://a.org")) [] 80).0.msg_hdrs ≡ []
parse_request_hdr-cleared_example =
    parse_request_hdr-cleared empty_http no_error (some (codes "GET http://a.org")) [] 80 refl
      cut_request

-- A response that says it is chunked, with no chunk yet.
abbrev chunked_reply : Bytes
chunked_reply = codes "HTTP/1.1 200 OK\r\nTransfer-Encoding: chunked\r\n\r\n"

cut_response :
    (parse_response_hdr (λ n. true) empty_http no_error (some chunked_reply) [] chunk_buf).used
    ≡ none
unfolding parse_response_hdr status_line parse_version skip_http_slash parse_number expect skip_byte
    check_version known_version skip_phrase response_hdrs parse_msg_hdrs parse_msg_hdr parse_line
    field_while ip_utils.Http.MsgHdrLine.skip_delimiter parse_params parse_param parse_crlf
    last_feed response_body is_chunked transfer_encoding same_name strtol strncasecmp_eq span_rest
    span_taken isspace isdigit value
cut_response = refl

parse_response_hdr-cleared_example :
    (parse_response_hdr
      (λ n. true)
      empty_http
      no_error
      (some chunked_reply)
      []
      chunk_buf).http.msg_hdrs
    ≡ []
parse_response_hdr-cleared_example =
    parse_response_hdr-cleared (λ n. true) empty_http no_error (some chunked_reply) [] chunk_buf
      refl cut_response

-- ===== src/Tests/HttpTests.antt =====
-- HTTPFraming.cc on concrete inputs.
use ip_utils.Base.{
  ◌≡◌, refl, some, [], ◌∷◌, ◌++◌, codes, length, isspace, span_taken, span_rest, kept_all,
}
use ip_utils.ErrorHandler.{no_error}
use ip_utils.Http.{empty_http, MsgField, Http}
use ip_utils.Http.MsgHdrLine.{
  field_while, skip_delimiter, in_name, in_key, in_value, parse_param, parse_params, parse_crlf,
  parse_line, parse_msg_hdr,
}
use ip_utils.Http.MsgHdrLine.RoundTrip.{kept_in, line_text, IsLine, parse_msg_hdr-line}
use ip_utils.Http.MsgHdrLine.Consumed.{Uses, parse_msg_hdr-Uses}

abbrev content : MsgField
content = record {
  field_name = codes "Content-Type";
  field_value = codes "text/xml";
  parameters = record { key = codes "charset"; value = codes "utf8" } ∷ [];
}

-- A line that is cut off is no error.
parse-short :
    parse_msg_hdr empty_http no_error (some (codes "Content-Type: text")) []
    ≡ (empty_http, no_error, 0)
unfolding parse_msg_hdr parse_line field_while skip_delimiter parse_params parse_param parse_crlf
    span_rest span_taken isspace
parse-short = refl

content-IsLine : IsLine content
unfolding isspace
content-IsLine = (
  (refl, refl, kept_all (kept_in in_name) (codes "Content-Type") refl),
  (refl, refl, kept_all (kept_in in_value) (codes "text/xml") refl),
  (
    (
      (refl, refl, kept_all (kept_in in_key) (codes "charset") refl),
      (refl, refl, kept_all (kept_in in_value) (codes "utf8") refl),
    ),
    tt,
  ),
)

parse_msg_hdr-line_example :
    parse_msg_hdr empty_http no_error (some (line_text content ++ codes "Host: a")) [] ≡ (
      record empty_http { msg_hdrs = empty_http.msg_hdrs ++ (content ∷ []) },
      no_error,
      length (line_text content),
    )
parse_msg_hdr-line_example =
    parse_msg_hdr-line empty_http no_error content (codes "Host: a") [] content-IsLine

parse_msg_hdr-Uses_example :
    Uses empty_http no_error
      (line_text content)
      (parse_msg_hdr empty_http no_error (some (line_text content)) [])
parse_msg_hdr-Uses_example = parse_msg_hdr-Uses empty_http no_error (line_text content) []

abbrev content_http : Http
content_http = record empty_http { msg_hdrs = content ∷ [] }

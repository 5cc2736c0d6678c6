-- ===== src/Tests/SessionHeaderTests.antt =====
-- TCPSession.cc, InitIncomingMsg, on concrete inputs.
use ip_utils.Base.{
  ℕ, ◌≡◌, refl, true, false, some, ◌++◌, arith, Bytes, codes, length, take_all, isspace, span_rest,
  strncasecmp_eq,
}
use ip_utils.Http.{msg_len}
use ip_utils.Http.Print.Hdr.{print_hdr}
use ip_utils.Http.InitFromBuf.{begins_request, init_http_from_buf}
use ip_utils.Http.InitFromBuf.RoundTrip.{as_request}
use ip_utils.MsgHdr.{empty_basic}
use ip_utils.MsgHdr.InitFromBuf.{next_id, init_http_hdr, init_from_buf}
use ip_utils.Session.{use_mem, Session}
use ip_utils.Session.Streaming.{waiting}
use ip_utils.Session.Header.{after_header, init_incoming_msg, Outside}
use ip_utils.Session.Header.Accept.{init_incoming_msg-request}
use ip_utils.Session.Header.Refused.{Refused, init_incoming_msg-Refused}
use ip_utils.Tests.HttpMessageTests.{get_site, get_site-IsRequest}
use ip_utils.Tests.SessionTests.{two_at_a_time, empty_session}
use ip_utils.MsgHdr.InitFromBuf
use ip_utils.ErrorHandler.{no_error}

abbrev one_request : Bytes
one_request = print_hdr get_site 0 false ++ codes "x"

abbrev fed_session : Bytes → Session ℕ
fed_session block = record empty_session {
  rbuf = some block;
  rbuf_size = length block;
  rbuf_len = length block;
}

abbrev outside : Outside
outside = record { calloc = true; realloc = λ n. true; pointer = empty_basic; hash = 7 }

init_incoming_msg-request_example :
    let r = init_incoming_msg two_at_a_time outside (fed_session one_request) no_error in
    (waiting r.0 ≡ codes "x")
    × (r.0.rhdr.hdr.http ≡ as_request get_site)
    × (r.0.rpending ≡ record (fed_session one_request).rpending {
      initialized = true;
      msg_id = next_id 7;
      hdr_len = length (print_hdr get_site 0 false);
      body_len = msg_len get_site;
      buf_offset = 0;
      file_offset = 0;
      storage = use_mem;
    })
    × (r.1 ≡ no_error)
    × (r.2 ≡ next_id 7)
    × (r.3 ≡ true)
init_incoming_msg-request_example =
    init_incoming_msg-request two_at_a_time outside (fed_session one_request) no_error get_site
      one_request (codes "x") refl (omega arith)
      (take_all (length one_request) one_request (omega arith)) refl refl get_site-IsRequest refl
      refl

-- Half of a method.
cut_short : (init_incoming_msg two_at_a_time outside (fed_session (codes "GE")) no_error).3 ≡ false
unfolding init_incoming_msg after_header InitFromBuf.init_from_buf init_http_hdr init_http_from_buf
    begins_request strncasecmp_eq span_rest isspace
cut_short = refl

init_incoming_msg-Refused_example :
    Refused
      (fed_session (codes "GE"))
      (init_incoming_msg two_at_a_time outside (fed_session (codes "GE")) no_error)
init_incoming_msg-Refused_example =
    init_incoming_msg-Refused two_at_a_time outside (fed_session (codes "GE")) no_error refl
      cut_short

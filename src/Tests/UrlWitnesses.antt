-- ===== src/Tests/UrlWitnesses.antt =====
-- URL.cc: the theorems on concrete inputs.
use ip_utils.Base.{
  ◌≡◌, refl, inr, some, [], ◌∷◌, ◌++◌, arith, codes, length, isspace, kept_all, kept_nul, decimal,
}
use ip_utils.ErrorHandler.{no_error}
use ip_utils.Url.{empty_url, QueryInfo, Url}
use ip_utils.Url.Parse.{not_colon, in_host, to_path_end, not_space, init_from_buf}
use ip_utils.Url.Print.{print_absolute_uri}
use ip_utils.Url.Taint.{init_from_buf-IsClean, IsClean}
use ip_utils.Url.RoundTrip.{init_from_buf-print, IsWritable}
use ip_utils.Url.RoundTrip.PrintText.{query_text, IsText}
use ip_utils.Url.RoundTrip.Pieces.{plain}
use ip_utils.Url.RoundTrip.Query.{key_byte, value_byte, IsQuery}

abbrev who : QueryInfo
who = record { key = codes "who"; value = codes "me" }

abbrev small_url : Url
small_url = record {
  scheme = codes "http";
  host = codes "blah";
  port = 13500;
  path = codes "fnord";
  query = who ∷ [];
  fragment = codes "top";
}

who-IsQuery : IsQuery (who ∷ [])
unfolding isspace
who-IsQuery = ((kept_all key_byte (codes "who") refl, kept_all value_byte (codes "me") refl), tt)

small_url-IsWritable : IsWritable small_url
unfolding isspace decimal query_text
small_url-IsWritable = record {
  scheme = kept_all (plain not_colon) (codes "http") refl;
  scheme_some = refl;
  host = kept_all (plain in_host) (codes "blah") refl;
  host_some = refl;
  port_some = refl;
  port_fits = omega arith;
  path = kept_all (plain to_path_end) (codes "fnord") refl;
  query = who-IsQuery;
  fragment = kept_all (plain not_space) (codes "top") refl;
  fits = omega arith;
}

init_from_buf-print_example :
    init_from_buf empty_url no_error
      (some (print_absolute_uri small_url ++ codes " HTTP/1.1"))
      []
      80
    ≡ (small_url, no_error, length (print_absolute_uri small_url))
init_from_buf-print_example =
    init_from_buf-print small_url empty_url no_error (codes " HTTP/1.1") [] 80 small_url-IsWritable
      (inr (unfold isspace in refl))

init_from_buf-IsClean_example :
    IsClean (init_from_buf empty_url no_error (some (codes "http://b`ah/|x")) [] 80).0
init_from_buf-IsClean_example =
    init_from_buf-IsClean empty_url no_error (codes "http://b`ah/|x") [] 80

small_url-IsText : IsText small_url
small_url-IsText = record {
  scheme = kept_nul (codes "http") refl;
  scheme_some = refl;
  host = kept_nul (codes "blah") refl;
  host_some = refl;
  port = refl;
  path = kept_nul (codes "fnord") refl;
  query = ((kept_nul (codes "who") refl, kept_nul (codes "me") refl), tt);
  fragment = kept_nul (codes "top") refl;
}

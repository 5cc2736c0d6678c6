-- ===== src/Tests/UrlTests.antt =====
-- URL.cc on concrete inputs.
use ip_utils.Base.{
  ◌≡◌, refl, some, [], ◌∷◌, ◌++◌, Bytes, codes, isspace, isdigit, span_taken, span_rest, decimal,
  value,
}
use ip_utils.ErrorHandler.{no_error}
use ip_utils.Url.{
  empty_url, has_nasty, is_str_tainted, set_scheme, set_host, set_port, set_fragment, query_loop,
  set_query, set_path_rest, set_path, Url,
}
use ip_utils.Url.Parse.{init_from_buf}
use ip_utils.Url.Print.{print_absolute_uri}

abbrev sample : Url
sample = record {
  scheme = codes "http";
  host = codes "blah";
  port = 13500;
  path = codes "fnord";
  query = record { key = codes "who"; value = codes "lovecraft" } ∷ [];
  fragment = codes "arkham";
}

abbrev sample_text : Bytes
sample_text = codes "http://blah:13500/fnord?who=lovecraft#arkham"

print_sample : print_absolute_uri sample ≡ sample_text
unfolding print_absolute_uri decimal
print_sample = refl

parse_sample :
    init_from_buf empty_url no_error (some (sample_text ++ codes " HTTP/1.1")) [] 80
    ≡ (sample, no_error, 44)
unfolding init_from_buf set_scheme set_host set_port set_path set_query set_fragment set_path_rest
    query_loop is_str_tainted has_nasty span_taken span_rest isspace isdigit value
parse_sample = refl

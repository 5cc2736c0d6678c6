-- ===== src/Http/Print/Hdr.antt =====
-- HTTPFraming.cc, print_start_line, print_hdr, hdr_len and print. A printed string is the C string
-- in a buffer of 4096 bytes.
use ip_utils.Base.{
  ℕ, Bool, false, not, [], ◌∷◌, ◌++◌, leb, ◌==◌, if◌then◌else◌, Bytes, codes, length, get_or, drop,
  decimal, print_int,
}
use ip_utils.Http.{method_null, method_names, status_code_phrase, msg_len, content_type, Http}
use ip_utils.Http.Print.{print_size, emit, print_msg_hdrs}
use ip_utils.Url.Print.{print_abs_path, print_absolute_uri}

abbrev pub version_text : Http → Bytes
version_text h = codes "HTTP/" ++ (print_int h.major ++ (b'.' ∷ print_int h.minor))

-- `method_names[method()]`; a number behind the array gives nothing here.
abbrev pub method_text : Http → Bytes
method_text h = get_or method_names h.method []

abbrev pub uri_part : Http → Bool → Bytes
uri_part h abs_path = if abs_path then print_abs_path h.uri else print_absolute_uri h.uri

unfoldable pub print_start_line : Http → Bool → Bytes
print_start_line h abs_path =
    if not (h.method == method_null)
    then emit [] (method_text h ++ (b' ' ∷ (uri_part h abs_path ++ (b' ' ∷ version_text h))))
    else emit [] (
        version_text h
        ++ (b' ' ∷ (print_int h.status_code ++ (b' ' ∷ status_code_phrase h.status_code))))

-- The header from its first byte on.
abbrev pub whole_hdr : Http → Bool → Bytes
whole_hdr h abs_path =
    emit [] (print_start_line h abs_path ++ (codes "\r\n" ++ (print_msg_hdrs h ++ codes "\r\n")))

-- `print_hdr(offset, abs_path)`; the buffer holds NULs behind the text, so a size_t within the
-- buffer may stand behind the text too.
unfoldable pub print_hdr : Http → ℕ → Bool → Bytes
print_hdr h offset abs_path =
    if leb offset print_size then drop offset (whole_hdr h abs_path) else whole_hdr h abs_path

unfoldable pub hdr_len : Http → Bool → ℕ
hdr_len h abs_path = length (print_hdr h 0 abs_path)

-- `HTTPFraming::print`
unfoldable pub print : Http → Bytes
print h =
    let lengths = decimal (msg_len h) ++ (b' ' ∷ decimal (hdr_len h false)) in
    let rest = b' ' ∷ (lengths ++ (b' ' ∷ content_type h)) in
    if not (h.method == method_null)
    then emit []
        (method_text h ++ (b' ' ∷ (print_absolute_uri h.uri ++ (b' ' ∷ (version_text h ++ rest)))))
    else if not (h.status_code == 0)
    then emit [] (version_text h ++ (b' ' ∷ (print_int h.status_code ++ rest)))
    else emit [] (print_int h.method ++ (b' ' ∷ (print_int h.status_code ++ (b' ' ∷ lengths))))

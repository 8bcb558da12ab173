-- ===== src/Abnf.antt =====
-- h11/_abnf.py, and the compiled patterns that the other modules make of it.
use h11_py.Prelude.{ℕ, Bool, false, not, ◌||◌, [], ◌∷◌, ◌==◌}
use h11_py.Bytes.{Bytes, bytes, within, is_space, lf}
use h11_py.Regex.{Regex, nothing, class, seq, alt, star, group, any_of, some_of, opt, at_most}

abbrev pub one_of : Bytes → ℕ → Bool
one_of [] c = false
one_of (d ∷ s) c = c == d || one_of s c

abbrev pub lit : Bytes → Regex
lit [] = nothing
lit (c ∷ s) = seq (class (λ d. d == c)) (lit s)

-- `[ \t]`
abbrev pub is_blank : ℕ → Bool
is_blank c = c == b' ' || c == b'\t'

abbrev pub ows : Regex
ows = any_of is_blank

abbrev pub is_digit : ℕ → Bool
is_digit = within b'0' b'9'

-- `[-!#$%&'*+.^_`|~0-9a-zA-Z]`
abbrev pub is_tchar : ℕ → Bool
is_tchar c =
    one_of (bytes "-!#$%&'*+.^_`|~") c || is_digit c || within b'a' b'z' c || within b'A' b'Z' c

abbrev pub token : Regex
token = some_of is_tchar

abbrev pub field_name : Regex
field_name = token

-- `[\x21-\x7e]`
abbrev pub is_vchar : ℕ → Bool
is_vchar = within 0x21 0x7e

-- `[^\x00\s]`
abbrev pub is_vchar_or_obs_text : ℕ → Bool
is_vchar_or_obs_text c = not (c == 0 || is_space c)

abbrev pub field_content : Regex
field_content =
    seq (some_of is_vchar_or_obs_text)
      (star (seq (some_of is_blank) (some_of is_vchar_or_obs_text)))

abbrev pub field_value : Regex
field_value = opt field_content

abbrev pub header_field : Regex
header_field =
    seq (group "field_name" field_name)
      (seq (lit (bytes ":")) (seq ows (seq (group "field_value" field_value) ows)))

abbrev pub request_target : Regex
request_target = some_of is_vchar

abbrev pub http_version : Regex
http_version =
    seq (lit (bytes "HTTP/"))
      (group "http_version" (seq (class is_digit) (seq (lit (bytes ".")) (class is_digit))))

abbrev pub request_line : Regex
request_line = seq (group "method" token) (
    seq (lit (bytes " "))
      (seq (group "target" request_target) (seq (lit (bytes " ")) http_version)))

abbrev pub status_code : Regex
status_code = seq (class is_digit) (seq (class is_digit) (class is_digit))

abbrev pub reason_phrase : Regex
reason_phrase = star (alt (class is_blank) (class is_vchar_or_obs_text))

abbrev pub status_line : Regex
status_line = seq http_version (
    seq (lit (bytes " ")) (
      seq (group "status_code" status_code)
        (opt (seq (lit (bytes " ")) (group "reason" reason_phrase)))))

-- `[0-9A-Fa-f]`
abbrev pub is_hexdig : ℕ → Bool
is_hexdig c = is_digit c || within b'A' b'F' c || within b'a' b'f' c

-- `({HEXDIG}){1,20}`
abbrev pub chunk_size : Regex
chunk_size = seq (class is_hexdig) (at_most 19 (class is_hexdig))

-- `;.*`, where `.` is any byte but LF
abbrev pub chunk_ext : Regex
chunk_ext = seq (lit (bytes ";")) (any_of (λ c. not (c == lf)))

abbrev pub chunk_header : Regex
chunk_header =
    seq (group "chunk_size" chunk_size)
      (seq (opt (group "chunk_ext" chunk_ext)) (seq ows (lit (bytes "\r\n"))))

-- `re.compile(rb"[0-9]+")` of _headers.py
abbrev pub content_length_re : Regex
content_length_re = some_of is_digit

-- `re.compile(rb"[ \t]+")` of _readers.py
abbrev pub obs_fold_re : Regex
obs_fold_re = some_of is_blank

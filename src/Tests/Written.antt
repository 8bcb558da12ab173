-- ===== src/Tests/Written.antt =====
-- Examples of a request and a response that are written and parsed.
use h11_py.Prelude.{arith, false, List, [], ◌∷◌, ◌≡◌, refl}
use h11_py.Util.{ok, raw, BytesLike}
use h11_py.Bytes.{bytes}
use h11_py.Events.{Request, Response, request, pairs, new_request}
use h11_py.Events.WellFormed.{IsRequest, new_request-IsRequest}
use h11_py.Headers.{normalize_and_validate}
use h11_py.Writers.{write_request, write_any_response}
use h11_py.Writers.HostFirst.{only, host_first, ended}
use h11_py.Readers.Parse.{parse_request, parse_response}
use h11_py.Readers.Written.{request_lines, parse_request-written}
use h11_py.Abnf.{reason_phrase}
use h11_py.Regex.Language.{Matches}
use h11_py.Util.Validate.{validate_lem}
use h11_py.Readers.Answered.{response_lines, answer, parse_response-written}
use h11_py.Tests.Runs.{everything}

abbrev given : List (BytesLike × BytesLike)
given =
    (raw (bytes "Accept"), raw (bytes "a, b"))
    ∷ (raw (bytes "Host"), raw (bytes "example.org"))
    ∷ []

abbrev wanted : Request
wanted = record {
  method = bytes "GET";
  headers =
      record { raw_name = bytes "Accept"; name = bytes "accept"; value = bytes "a, b" }
      ∷ record { raw_name = bytes "Host"; name = bytes "host"; value = bytes "example.org" }
      ∷ [];
  target = bytes "/";
  http_version = bytes "1.1";
}

is_made :
    new_request false (raw (bytes "GET")) (pairs given) (raw (bytes "/")) (raw (bytes "1.1"))
    ≡ ok wanted
unfolding everything
is_made = refl

is_normalised : normalize_and_validate false given ≡ ok wanted.headers
unfolding everything
is_normalised = refl

wanted-IsRequest : IsRequest wanted
wanted-IsRequest =
    new_request-IsRequest false (raw (bytes "GET")) (pairs given) (raw (bytes "/"))
      (raw (bytes "1.1")) tt is_made

lines_sent :
    request_lines wanted
    ≡ (bytes "GET / HTTP/1.1" ∷ bytes "Host: example.org" ∷ bytes "Accept: a, b" ∷ [])
unfolding only everything
lines_sent = refl

parse_request-written_example :
    (write_request wanted ≡ ok (ended (request_lines wanted)))
    × (parse_request (request_lines wanted)
        ≡ ok (request (record wanted { headers = host_first wanted.headers })))
parse_request-written_example =
    parse_request-written wanted given wanted-IsRequest refl is_normalised

abbrev listed : List (BytesLike × BytesLike)
listed = (raw (bytes "Content-Length"), raw (bytes "3,3")) ∷ []

abbrev missing : Response
missing = record {
  headers =
      record { raw_name = bytes "Content-Length"; name = bytes "content-length"; value = bytes "3" }
      ∷ [];
  http_version = bytes "1.1";
  reason = bytes "Not Found";
  status_code = 404;
}

is_listed : normalize_and_validate false listed ≡ ok missing.headers
unfolding everything
is_listed = refl

not_found-Matches : Matches reason_phrase (bytes "Not Found")
unfolding everything
not_found-Matches = (validate_lem reason_phrase (bytes "Not Found") "").0.0 (_, refl)

answer_sent :
    response_lines missing ≡ (bytes "HTTP/1.1 404 Not Found" ∷ bytes "Content-Length: 3" ∷ [])
unfolding only everything
answer_sent = refl

parse_response-written_example :
    (write_any_response missing ≡ ok (ended (response_lines missing)))
    × (parse_response (response_lines missing)
        ≡ ok (answer (record missing { headers = host_first missing.headers })))
parse_response-written_example =
    parse_response-written missing listed (omega arith) (omega arith) not_found-Matches refl
      is_listed

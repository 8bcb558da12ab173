-- ===== src/Tests/Headers.antt =====
-- Examples for headers and framing.
use h11_py.Prelude.{ℕ, zero, suc, ◌⊎◌, none, some, List, [], ◌∷◌, ◌≡◌, refl, ◌↔◌, false, arith}
use h11_py.Util.{value_error, ok, raise, local_error, BytesLike, raw, validate}
use h11_py.Bytes.{Bytes, bytes}
use h11_py.Regex.{Groups}
use h11_py.Regex.Language.{Matches}
use h11_py.Abnf.{content_length_re}
use h11_py.Util.Validate.{validate_lem}
use h11_py.Events.{Request, Response, request, response}
use h11_py.Headers.{Headers, normalize_and_validate}
use h11_py.Headers.Idempotent.{again, normalize_and_validate-again}
use h11_py.Headers.Normal.{values_of, LengthsAfter, EncodingsAfter, normalize_and_validate-After}
use h11_py.Framing.{content_length, chunked, http10, body_framing}
use h11_py.Framing.Normal.{IsBodiless, framing_by_rfc, body_framing-request, body_framing-response}
use h11_py.Tests.Runs.{everything}

abbrev pairs : List (BytesLike × BytesLike)
pairs =
    (raw (bytes "Content-Length"), raw (bytes "10, 10"))
    ∷ (raw (bytes "Transfer-Encoding"), raw (bytes "Chunked"))
    ∷ []

abbrev normal : Headers
normal =
    record { raw_name = bytes "Content-Length"; name = bytes "content-length"; value = bytes "10" }
    ∷ record {
      raw_name = bytes "Transfer-Encoding";
      name = bytes "transfer-encoding";
      value = bytes "chunked";
    }
    ∷ []

normalised : normalize_and_validate false pairs ≡ ok normal
unfolding everything
normalised = refl

normalize_and_validate-After_example :
    LengthsAfter none (values_of (bytes "content-length") normal)
    × EncodingsAfter false (values_of (bytes "transfer-encoding") normal)
normalize_and_validate-After_example = normalize_and_validate-After false pairs normalised

abbrev upload : Request
upload = record {
  method = bytes "PUT";
  headers = normal;
  target = bytes "/";
  http_version = bytes "1.1";
}

body_framing-request_example : body_framing (some (bytes "PUT")) (request upload) ≡ ok chunked
unfolding everything
body_framing-request_example =
    body_framing-request (some (bytes "PUT")) upload false pairs normalised

abbrev download : Response
download = record {
  headers = normal;
  http_version = bytes "1.1";
  reason = bytes "OK";
  status_code = 200;
}

body_framing-response_example :
    (IsBodiless (some (bytes "HEAD")) 200
      × (body_framing (some (bytes "HEAD")) (response download) ≡ ok (content_length 0)))
    ⊎ ((¬ (IsBodiless (some (bytes "HEAD")) 200))
        × (body_framing (some (bytes "HEAD")) (response download)
            ≡ framing_by_rfc download.headers http10))
body_framing-response_example =
    body_framing-response (some (bytes "HEAD")) download false pairs normalised (omega arith)

validate_lem_example :
    (((g : Groups) × (validate content_length_re (bytes "12") "bad" ≡ ok g))
      ↔ Matches content_length_re (bytes "12"))
    × ((validate content_length_re (bytes "12") "bad" ≡ raise (local_error "bad"))
        ↔ (¬ (Matches content_length_re (bytes "12"))))
validate_lem_example = validate_lem content_length_re (bytes "12") "bad"

normalize_and_validate-again_example : normalize_and_validate false (again normal) ≡ ok normal
normalize_and_validate-again_example = normalize_and_validate-again false pairs normalised

-- A decimal number of as many nines.
abbrev nines : ℕ → Bytes
nines zero = []
nines (suc n) = b'9' ∷ nines n

abbrev endless : Request
endless = record upload {
  headers =
      record {
        raw_name = bytes "Content-Length";
        name = bytes "content-length";
        value = nines 4301;
      }
      ∷ [];
}

-- `int` raises a ValueError on it.
too_many_digits : body_framing (some (bytes "PUT")) (request endless) ≡ raise value_error
unfolding everything
too_many_digits = refl

-- ===== src/Tests/Values.antt =====
-- Examples for comma headers, the headers of a response to be sent, and equal header lists.
use h11_py.Prelude.{true, false, none, some, [], ◌∷◌, map, ◌≡◌, ◌↔◌, refl}
use h11_py.Util.{ok}
use h11_py.Bytes.{bytes}
use h11_py.Events.{Response}
use h11_py.Headers.{Headers, contains, get_comma_header, set_comma_header}
use h11_py.Headers.Normal.{values_of}
use h11_py.Headers.Values.{set_comma_header-values}
use h11_py.Headers.Items.{equals, equals-items, getitem, list_from, from_start, from_end}
use h11_py.Framing.{keep_alive}
use h11_py.Connection.Cleanup.{clean_up_response_headers}
use h11_py.Connection.Closing.{clean_up-closes}
use h11_py.Tests.Runs.{everything, get_request, plain_response}

abbrev named : Headers
named = record { raw_name = bytes "HOST"; name = bytes "host"; value = bytes "a" } ∷ []

equals-items_example : (equals get_request.headers named ≡ true) ↔ (
    (map (λ h. h.name) get_request.headers ≡ map (λ h. h.name) named)
    × (map (λ h. h.value) get_request.headers ≡ map (λ h. h.value) named))
equals-items_example = equals-items get_request.headers named

is_equal : equals get_request.headers named ≡ true
unfolding equals list_from everything
is_equal = refl

last_item : getitem named (from_end 0) ≡ some (bytes "host", bytes "a")
unfolding getitem
last_item = refl

past_the_end : getitem named (from_start 1) ≡ none
unfolding getitem
past_the_end = refl

abbrev with_connection : Headers
with_connection =
    record { raw_name = bytes "Host"; name = bytes "host"; value = bytes "a" }
    ∷ record { raw_name = bytes "Connection"; name = bytes "connection"; value = bytes "x" }
    ∷ record { raw_name = bytes "Connection"; name = bytes "connection"; value = bytes "close" }
    ∷ []

is_set :
    set_comma_header get_request.headers (bytes "connection") (bytes "x" ∷ bytes "close" ∷ [])
    ≡ ok with_connection
unfolding everything
is_set = refl

set_comma_header-values_example :
    (values_of (bytes "connection") with_connection ≡ (bytes "x" ∷ bytes "close" ∷ []))
    × (values_of (bytes "host") with_connection ≡ values_of (bytes "host") get_request.headers)
unfolding everything
set_comma_header-values_example =
    set_comma_header-values get_request.headers (bytes "connection") (bytes "host")
      (bytes "x" ∷ bytes "close" ∷ []) (refl, tt) (refl, refl) refl (refl, refl) refl is_set

abbrev closing_response : Response
closing_response = record plain_response {
  headers =
      record {
        raw_name = bytes "Transfer-Encoding";
        name = bytes "transfer-encoding";
        value = bytes "chunked";
      }
      ∷ record { raw_name = bytes "Connection"; name = bytes "connection"; value = bytes "close" }
      ∷ [];
}

is_cleaned :
    clean_up_response_headers (some (bytes "GET")) (some (bytes "1.1")) false plain_response
    ≡ ok closing_response
unfolding everything
is_cleaned = refl

clean_up-closes_example :
    (contains (bytes "close") (get_comma_header closing_response.headers (bytes "connection"))
      ≡ true)
    × (keep_alive closing_response.http_version closing_response.headers ≡ false)
clean_up-closes_example =
    clean_up-closes (some (bytes "GET")) (some (bytes "1.1")) plain_response tt is_cleaned

-- ===== src/Tests/Counted.antt =====
-- Examples for bodies of a declared length.
use h11_py.Prelude.{[], ◌∷◌, ◌≡◌, refl, inl, List}
use h11_py.Util.{ok}
use h11_py.Bytes.{Bytes, bytes}
use h11_py.Framing.{content_length}
use h11_py.Writers.{body_writer}
use h11_py.Writers.Counted.{send_body, send_body-counted}
use h11_py.ReceiveBuffer
use h11_py.Readers.{Reading, ContentLengthReader}
use h11_py.Readers.Counted.{Takes, feed, feed-Takes}

send_body-counted_example :
    send_body (body_writer (content_length 3)) (bytes "ab" ∷ bytes "c" ∷ [])
    ≡ ok (bytes "ab" ∷ bytes "c" ∷ [])
send_body-counted_example = send_body-counted 3 (bytes "ab" ∷ bytes "c" ∷ [])

abbrev expecting : Reading ContentLengthReader
expecting = record { reader = record { length = 5; remaining = 5 }; buffer = ReceiveBuffer.new }

abbrev arrivals : List Bytes
arrivals = bytes "He" ∷ bytes "lloGE" ∷ bytes "T" ∷ []

feed-Takes_example : Takes 5 (bytes "HelloGET") (feed arrivals expecting)
feed-Takes_example = feed-Takes arrivals expecting (inl refl)

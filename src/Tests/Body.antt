-- ===== src/Tests/Body.antt =====
-- The properties of the body readers and writers, and of printed numbers, at concrete data.
use h11_py.Prelude.{[], ◌∷◌, ◌++◌, refl, arith, inl, List}
use h11_py.Bytes.{Bytes, bytes, join}
use h11_py.ReceiveBuffer.{new, append}
use h11_py.ReceiveBuffer.Valid.{new-IsValid, append-IsValid}
use h11_py.Readers.{Reading, ChunkedReader, new_chunked}
use h11_py.Readers.Chunks.{Before}
use h11_py.Readers.Body.{written, body_events, Yields, read_chunked-written}

abbrev pieces : List Bytes
pieces = bytes "hello" ∷ [] ∷ bytes "h11" ∷ []

abbrev wire : Bytes
wire = join (written pieces) ++ bytes "GET"

abbrev received : Reading ChunkedReader
received = record { reader = new_chunked; buffer = append wire new }

received-Before : Before received wire
unfolding append
received-Before = record { valid = append-IsValid wire new new-IsValid; place = inl (refl, refl) }

read_chunked-written_example : Yields (bytes "GET") received (body_events pieces)
read_chunked-written_example =
    read_chunked-written received pieces (bytes "GET") received-Before (omega arith)

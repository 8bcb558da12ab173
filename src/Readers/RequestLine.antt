-- ===== src/Readers/RequestLine.antt =====
-- The line that `write_request` of h11/_writers.py writes, and the pattern that h11/_readers.py parses
-- it with.
use h11_py.Prelude.{ℕ, String, Bool, some, [], ◌∷◌, ◌++◌, ◌≡◌, refl}
use h11_py.Util.{ok, validate}
use h11_py.Bytes.{Bytes, bytes}
use h11_py.Regex.{Groups, Cont, Regex, group, seq, some_of, at_end, run, fullmatch}
use h11_py.Regex.Greedy.{Stops, run-some_of, between-append}
use h11_py.Regex.Classes.{some_of-AllIn}
use h11_py.Regex.Language.{Matches}
use h11_py.Abnf.{token, request_target, request_line, http_version, is_tchar, is_vchar, lit}

-- A named group of `[...]+` that ends where its class ends.
pub run-group :
    {R : Type 0} (name : String) (p : ℕ → Bool) (w rest : Bytes) (k : Cont R) (g : Groups) {r : R}
    → Matches (some_of p) w
    → Stops p rest
    → k rest ((name, w) ∷ g) ≡ some r
    → run (group name (some_of p)) k (w ++ rest) g ≡ some r
unfolding run
run-group name p [] rest k g m s e = let n = (some_of-AllIn p [] m).1 in cc
run-group name p (c ∷ w) rest k g m s e =
    run-some_of p c w rest _ g (some_of-AllIn p (c ∷ w) m).0 s (rw (between-append (c ∷ w) rest) e)

abbrev pub written_line : Bytes → Bytes → Bytes
written_line method target = method ++ (bytes " " ++ (target ++ bytes " HTTP/1.1"))

abbrev after_target : Regex
after_target = seq (lit (bytes " ")) http_version

abbrev after_method : Regex
after_method = seq (lit (bytes " ")) (seq (group "target" request_target) after_target)

run-after_target :
    (g : Groups)
    → run after_target at_end (bytes " HTTP/1.1") g ≡ some (("http_version", bytes "1.1") ∷ g)
unfolding run
run-after_target g = refl

run-after_method :
    (target : Bytes) (g : Groups)
    → Matches request_target target
    → run after_method at_end (bytes " " ++ (target ++ bytes " HTTP/1.1")) g
      ≡ some (("http_version", bytes "1.1") ∷ ("target", target) ∷ g)
unfolding run
run-after_method target g t =
    run-group "target" is_vchar target (bytes " HTTP/1.1") (run after_target at_end) g t refl
      (run-after_target (("target", target) ∷ g))

fullmatch-written_line :
    (method target : Bytes)
    → Matches token method
    → Matches request_target target
    → fullmatch request_line (written_line method target)
      ≡ some (("http_version", bytes "1.1") ∷ ("target", target) ∷ ("method", method) ∷ [])
unfolding fullmatch run
fullmatch-written_line method target m t =
    run-group "method" is_tchar method (bytes " " ++ (target ++ bytes " HTTP/1.1"))
      (run after_method at_end) [] m refl (run-after_method target (("method", method) ∷ []) t)

pub validate-written_line :
    (method target : Bytes)
    → Matches token method
    → Matches request_target target
    → validate request_line (written_line method target) "illegal request line: {!r}"
      ≡ ok (("http_version", bytes "1.1") ∷ ("target", target) ∷ ("method", method) ∷ [])
unfolding validate
validate-written_line method target m t = rw (fullmatch-written_line method target m t) refl

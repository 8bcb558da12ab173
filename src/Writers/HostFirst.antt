-- ===== src/Writers/HostFirst.antt =====
-- The order in which `write_headers` of h11/_writers.py writes the headers.
use mathlib.Core.Path.{subst}
use mathlib.Core.List.{append_assoc}
use h11_py.Prelude.{
  ◌+◌, Bool, true, false, not, List, [], ◌∷◌, ◌++◌, map, if◌then◌else◌, ◌≡◌, refl, sym, ap, ◌∙◌,
  inl, inr, arith, Bool-cases,
}
use h11_py.Bytes.{Bytes, bytes, eq_bytes, lower}
use h11_py.Events.{host_count}
use h11_py.Headers.{Header, Headers, Seen}
use h11_py.Headers.Normal.{eq_bytes-eq}
use h11_py.Headers.Values.{IsPlain, plain_step}
use h11_py.Headers.Idempotent.{Fits, none_left, next}
use h11_py.Writers.{header_line, lines_of, write_headers}

-- The headers whose name is "host", or the others.
unfoldable pub only : Bool → Headers → Headers
only host [] = []
only host (h ∷ hs) =
    let rest = only host hs in
    let is_host = eq_bytes h.name (bytes "host") in
    if (if host then is_host else not is_host) then h ∷ rest else rest

abbrev pub host_first : Headers → Headers
host_first hs = only true hs ++ only false hs

abbrev pub line_of : Header → Bytes
line_of h = h.raw_name ++ (bytes ": " ++ h.value)

abbrev pub with_crlf : Bytes → Bytes
with_crlf l = l ++ bytes "\r\n"

abbrev pub ended : List Bytes → List Bytes
ended ls = map with_crlf ls ++ (bytes "\r\n" ∷ [])

header_line-crlf : (h : Header) → header_line h ≡ with_crlf (line_of h)
header_line-crlf h = sym (append_assoc h.raw_name (bytes ": " ++ h.value) (bytes "\r\n"))

lines_of-only : (b : Bool) (hs : Headers) → lines_of b hs ≡ map with_crlf (map line_of (only b hs))
unfolding lines_of only
lines_of-only b [] = refl
lines_of-only true (h ∷ hs) = elim (Bool-cases (eq_bytes h.name (bytes "host"))) [
  | inl e ↦ rw (e, lines_of-only true hs, header_line-crlf h) refl
  | inr e ↦ rw (e, lines_of-only true hs) refl
]
lines_of-only false (h ∷ hs) = elim (Bool-cases (eq_bytes h.name (bytes "host"))) [
  | inl e ↦ rw (e, lines_of-only false hs) refl
  | inr e ↦ rw (e, lines_of-only false hs, header_line-crlf h) refl
]

map_twice-append :
    (xs ys : Headers)
    → map with_crlf (map line_of xs) ++ (map with_crlf (map line_of ys) ++ (bytes "\r\n" ∷ []))
      ≡ ended (map line_of (xs ++ ys))
map_twice-append [] ys = refl
map_twice-append (x ∷ xs) ys = ap (λ ls. with_crlf (line_of x) ∷ ls) (map_twice-append xs ys)

pub write_headers-lines : (hs : Headers) → write_headers hs ≡ ended (map line_of (host_first hs))
unfolding write_headers
write_headers-lines hs =
    rw (lines_of-only true hs, lines_of-only false hs)
      (map_twice-append (only true hs) (only false hs))

host_count-append : (xs ys : Headers) → host_count (xs ++ ys) ≡ host_count xs + host_count ys
unfolding host_count
host_count-append [] ys = omega arith
host_count-append (x ∷ xs) ys = rw (host_count-append xs ys) (omega arith)

host_count-only :
    (hs : Headers) → host_count (only true hs) + host_count (only false hs) ≡ host_count hs
unfolding host_count only
host_count-only [] = refl
host_count-only (h ∷ hs) = elim (Bool-cases (eq_bytes h.name (bytes "host"))) [
  | inl e ↦ rw (e, ← host_count-only hs) (rw e (omega arith))
  | inr e ↦ rw (e, ← host_count-only hs) (rw e (omega arith))
]

pub host_count-host_first : (hs : Headers) → host_count (host_first hs) ≡ host_count hs
host_count-host_first hs = host_count-append (only true hs) (only false hs) ∙ host_count-only hs

host-IsPlain : (name : Bytes) → eq_bytes name (bytes "host") ≡ true → IsPlain name
unfolding eq_bytes
host-IsPlain name h = rw (eq_bytes-eq name (bytes "host") h) (refl, refl)

hosts-Fits :
    {s : Seen} {hs : Headers} (seen : Seen) (rest : Headers)
    → Fits s hs
    → Fits seen rest
    → Fits seen (only true hs ++ rest)
unfolding only
hosts-Fits seen rest none_left f = f
hosts-Fits seen rest (next a v seen' m n c later) f =
    elim (Bool-cases (eq_bytes (lower a) (bytes "host"))) [
      | inl e ↦ rw e (
          next a v seen m n (plain_step (lower a) a v seen (host-IsPlain (lower a) e))
            (hosts-Fits seen rest later f))
      | inr e ↦ rw e (hosts-Fits seen rest later f)
    ]

others-Fits : {seen : Seen} {hs : Headers} → Fits seen hs → Fits seen (only false hs)
unfolding only
others-Fits none_left = none_left
others-Fits {seen} (next a v seen' {rest = rest} m n c later) =
    elim (Bool-cases (eq_bytes (lower a) (bytes "host"))) [
      | inl e ↦
          let same : seen' ≡ seen =
            let k = sym c ∙ plain_step (lower a) a v seen (host-IsPlain (lower a) e) in cc in
          rw e (subst (λ s. Fits s (only false rest)) same (others-Fits later))
      | inr e ↦ rw e (next a v seen' m n c (others-Fits later))
    ]

-- The headers of a normalisation stay what they are when the Host header is moved to the front.
pub host_first-Fits : {seen : Seen} {hs : Headers} → Fits seen hs → Fits seen (host_first hs)
host_first-Fits {seen} {hs} f = hosts-Fits seen (only false hs) f (others-Fits f)

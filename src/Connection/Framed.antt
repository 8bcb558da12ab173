-- ===== src/Connection/Framed.antt =====
-- The headers that choosing a framing leaves (h11/_connection.py,
-- `_clean_up_response_headers_for_sending`).
use h11_py.Prelude.{Bool, true, false, Option, List, [], ◌∷◌, ◌≡◌, if◌then◌else◌}
use mathlib.Core.Path.{subst}
use h11_py.Util.{Result, ok, ◌>>=◌, >>=-eq-ok}
use h11_py.Bytes.{Bytes, bytes}
use h11_py.Headers.{Headers, set_comma_header}
use h11_py.Framing.{Framing, content_length, chunked, http10}
use h11_py.Connection.Cleanup.{is_old, frame_unknown, frame}

abbrev with_flag : Bool → Headers → Result (Headers × Bool)
with_flag b h = ok (h, b)

-- A predicate that holds of every result of `set_comma_header`.
module _ (P : Headers → Type 0)
    (made : (hs : Headers) (name : Bytes) (vs : List Bytes) (hs' : Headers)
      → set_comma_header hs name vs ≡ ok hs'
      → P hs') where
  reset :
      (hs : Headers) (vs : List Bytes) (b : Bool) {hs' : Headers} {b' : Bool}
      → (set_comma_header hs (bytes "transfer-encoding") vs >>= with_flag b) ≡ ok (hs', b')
      → P hs'
  reset hs vs b {hs'} h =
      let (h1, e, k) = >>=-eq-ok (set_comma_header hs (bytes "transfer-encoding") vs) _ h in
      let q : h1 ≡ hs' = cc in subst P q (made hs (bytes "transfer-encoding") vs h1 e)

  by_age :
      (old : Bool) (hs : Headers) (b : Bool) {hs' : Headers} {b' : Bool}
      → (if old
          then (set_comma_header hs (bytes "transfer-encoding") [] >>= with_flag b)
          else (set_comma_header hs (bytes "transfer-encoding") (bytes "chunked" ∷ [])
              >>= with_flag false))
        ≡ ok (hs', b')
      → P hs'
  by_age true hs b h = reset hs [] b h
  by_age false hs b h = reset hs (bytes "chunked" ∷ []) false h

  frame_unknown_made :
      (version method : Option Bytes) (hs : Headers) {hs' : Headers} {b : Bool}
      → frame_unknown version method hs ≡ ok (hs', b)
      → P hs'
  frame_unknown_made version method hs h =
      let (h1, _, k) = >>=-eq-ok (set_comma_header hs (bytes "content-length") []) _ h in
      by_age (is_old version) h1 _ k

  pub frame_made :
      (version method : Option Bytes) (f : Framing) (hs : Headers) {hs' : Headers} {b : Bool}
      → P hs
      → frame version method f hs ≡ ok (hs', b)
      → P hs'
  unfolding frame
  frame_made version method (content_length n) hs {hs'} p h = let q : hs ≡ hs' = cc in subst P q p
  frame_made version method chunked hs p h = frame_unknown_made version method hs h
  frame_made version method http10 hs p h = frame_unknown_made version method hs h

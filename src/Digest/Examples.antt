-- ===== src/Digest/Examples.antt =====
-- A test of the round trip, and the property at it.
use alloyport.Prelude.{ℕ, zero, suc, ◌≡◌, refl, ok, List, [], ◌∷◌, arith}
use alloyport.Digest.{Sha256Digest, IsDigest, from_str, to_string}
use alloyport.Digest.RoundTrip.{from_str-to_string}

abbrev zeros : ℕ → List ℕ
zeros zero = []
zeros (suc n) = 171 ∷ zeros n

abbrev digest : Sha256Digest
digest = record { bytes = zeros 32 }

digest-IsDigest : IsDigest digest
digest-IsDigest = record { count = refl; octets = ground arith }

from_str-to_string_example : from_str (to_string digest) ≡ ok digest
from_str-to_string_example = from_str-to_string digest digest-IsDigest

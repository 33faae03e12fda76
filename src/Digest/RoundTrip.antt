-- ===== src/Digest/RoundTrip.antt =====
-- Printing a digest and parsing it back (crates/alloyport-core/src/artifact.rs).
use alloyport.Prelude.{
  ℕ, ◌*◌, ◌/◌, ◌%◌, ◌<◌, ◌≡◌, refl, ap, some, List, [], ◌∷◌, arith, length, All, ok,
}
use alloyport.Digest.{
  Sha256Digest, IsDigest, hex_digit, hex_nibble, hex_bytes, hexadecimal, to_string, parse_pairs,
  parse_hexadecimal, from_str,
}

hex_nibble-hex_digit : (n : ℕ) → n < 16 → hex_nibble (hex_digit n) ≡ some n
unfolding hex_nibble hex_digit
hex_nibble-hex_digit n h = ground arith

parse_pairs-hex_bytes : (bs : List ℕ) → All (λ b. b < 256) bs → parse_pairs (hex_bytes bs) ≡ ok bs
unfolding parse_pairs hex_bytes
parse_pairs-hex_bytes [] h = refl
parse_pairs-hex_bytes (b ∷ bs) h =
    rw
      (
        hex_nibble-hex_digit (b / 16) (omega (arith, h.0)),
        hex_nibble-hex_digit (b % 16) (omega (arith, h.0)),
        parse_pairs-hex_bytes bs h.1,
      )
      (ap (λ (k : ℕ). ok (k ∷ bs)) (omega arith))

length-hex_bytes : (bs : List ℕ) → length (hex_bytes bs) ≡ length bs * 2
unfolding hex_bytes
length-hex_bytes [] = refl
length-hex_bytes (b ∷ bs) = omega (arith, length-hex_bytes bs)

parse_hexadecimal-hexadecimal :
    (d : Sha256Digest) → IsDigest d → parse_hexadecimal (hexadecimal d) ≡ ok d
unfolding parse_hexadecimal hexadecimal
parse_hexadecimal-hexadecimal d v =
    rw (length-hex_bytes d.bytes, v.count, parse_pairs-hex_bytes d.bytes v.octets)

-- Parsing the printed form of a digest gives the digest back.
pub from_str-to_string : (d : Sha256Digest) → IsDigest d → from_str (to_string d) ≡ ok d
unfolding from_str to_string
from_str-to_string d v = parse_hexadecimal-hexadecimal d v

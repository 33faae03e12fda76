-- ===== src/Digest.antt =====
-- crates/alloyport-core/src/artifact.rs: content identities and their text form. The SHA-256
-- function itself belongs to the `ring` library, and is a parameter of what uses it.
pub mod RoundTrip
pub mod Examples
use alloyport.Prelude.{
  ℕ, ◌+◌, ◌-◌, ◌*◌, ◌/◌, ◌%◌, ◌<◌, ◌≡◌, Bool, ◌&&◌, Option, none, some, List, [], ◌∷◌, ◌++◌, ltb,
  leb, ◌==◌, if◌then◌else◌, length, All, Result, ok, err, ok_or, ◌>>=◌,
}
use alloyport.Prelude.Text.{Text, codes, text_eq}

abbrev pub sha256_bytes : ℕ
sha256_bytes = 32

-- [u8; 32]; that there are 32 entries, each a byte, is `IsDigest`.
pub record Sha256Digest : Type 0 where
  pub bytes : List ℕ

pub record IsDigest (d : Sha256Digest) : Type 0 where
  pub count : length d.bytes ≡ sha256_bytes
  pub octets : All (λ b. b < 256) d.bytes

unfoldable pub digest_eq : Sha256Digest → Sha256Digest → Bool
unfolding text_eq
digest_eq a b = text_eq a.bytes b.bytes

abbrev pub sha256_prefix : Text
sha256_prefix = codes "sha256:"

-- One digit of the format `{byte:02x}`.
hex_digit : ℕ → ℕ
hex_digit n = if ltb n 10 then 48 + n else 87 + n

hex_bytes : List ℕ → Text
hex_bytes [] = []
hex_bytes (b ∷ bs) = hex_digit (b / 16) ∷ hex_digit (b % 16) ∷ hex_bytes bs

unfoldable pub hexadecimal : Sha256Digest → Text
unfolding hex_bytes hex_digit
hexadecimal d = hex_bytes d.bytes

-- Display
unfoldable pub to_string : Sha256Digest → Text
unfolding hexadecimal
to_string d = sha256_prefix ++ hexadecimal d

pub data DigestParseError : Type 0 where
  missing_prefix : DigestParseError
  wrong_length : ℕ → DigestParseError
  non_hexadecimal : DigestParseError

hex_nibble : ℕ → Option ℕ
hex_nibble byte =
    if leb b'0' byte && leb byte b'9'
    then some (byte - b'0')
    else (if leb b'a' byte && leb byte b'f'
        then some (byte - b'a' + 10)
        else (if leb b'A' byte && leb byte b'F' then some (byte - b'A' + 10) else none))

-- str::strip_prefix
strip_prefix : Text → Text → Option Text
strip_prefix [] t = some t
strip_prefix (p ∷ ps) [] = none
strip_prefix (p ∷ ps) (c ∷ cs) = if p == c then strip_prefix ps cs else none

-- The loop over `chunks_exact(2)`; `(high << 4) | low` on nibbles is `high * 16 + low`.
parse_pairs : Text → Result DigestParseError (List ℕ)
parse_pairs [] = ok []
parse_pairs (a ∷ []) = ok []
parse_pairs (a ∷ b ∷ rest) = do
  high ← ok_or (hex_nibble a) non_hexadecimal
  low ← ok_or (hex_nibble b) non_hexadecimal
  bytes ← parse_pairs rest
  ok ((high * 16 + low) ∷ bytes)

parse_hexadecimal : Text → Result DigestParseError Sha256Digest
unfolding parse_pairs hex_nibble
parse_hexadecimal hexa =
    if length hexa == sha256_bytes * 2
    then (do bytes ← parse_pairs hexa; ok (record { bytes = bytes }))
    else err (wrong_length (length hexa))

-- FromStr, on the UTF-8 bytes of the value, which are what its length and its loop count
unfoldable pub from_str : Text → Result DigestParseError Sha256Digest
unfolding strip_prefix parse_hexadecimal
from_str value = do
  hexa ← ok_or (strip_prefix sha256_prefix value) missing_prefix
  parse_hexadecimal hexa

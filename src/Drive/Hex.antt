-- ===== src/Drive/Hex.antt =====
-- The hexadecimal text of attribute values that a drive keeps in a file:
-- data-plane/src/iscsi/cdb_drive.rs. A text is the list of its bytes, all ASCII.
use holo.Prelude.{
  ℕ, ◌+◌, ◌-◌, ◌*◌, ◌/◌, ◌%◌, ◌<◌, ◌≡◌, refl, ap, ltb, leb, ◌==◌, false, ◌&&◌, Option, none, some,
  List, [], ◌∷◌, All, arith, if◌then◌else◌,
}
use holo.Prelude.Bytes.{IsByte}

-- `{b:02X}` for half a byte.
unfoldable pub hex_digit : ℕ → ℕ
hex_digit n = if ltb n 10 then 48 + n else 55 + n

unfoldable pub encode_hex : List ℕ → List ℕ
encode_hex [] = []
encode_hex (b ∷ bytes) = hex_digit (b / 16) ∷ hex_digit (b % 16) ∷ encode_hex bytes

-- `char::to_digit(16)`.
unfoldable pub digit_value : ℕ → Option ℕ
digit_value c =
    if leb 48 c && leb c 57
    then some (c - 48)
    else if leb 65 c && leb c 70
    then some (c - 55)
    else if leb 97 c && leb c 102
    then some (c - 87)
    else none

abbrev joined : Option ℕ → Option ℕ → Option ℕ
joined (some high) (some low) = some (16 * high + low)
joined none low = none
joined (some high) none = none

-- `u8::from_str_radix` of two bytes, the first of which may be a plus sign.
unfoldable pub byte_value : ℕ → ℕ → Option ℕ
byte_value high low =
    if high == 43 then digit_value low else joined (digit_value high) (digit_value low)

abbrev push : Option ℕ → Option (List ℕ) → Option (List ℕ)
push (some b) (some bytes) = some (b ∷ bytes)
push none bytes = none
push (some b) none = none

-- An odd number of bytes ends in a single one, and is refused.
unfoldable pub decode_hex : List ℕ → Option (List ℕ)
decode_hex [] = some []
decode_hex (high ∷ []) = none
decode_hex (high ∷ low ∷ raw) = push (byte_value high low) (decode_hex raw)

digit_back : (n : ℕ) → n < 16 → digit_value (hex_digit n) ≡ some n
unfolding digit_value hex_digit
digit_back n h = ground arith

no_plus : (n : ℕ) → n < 16 → (hex_digit n == 43) ≡ false
unfolding hex_digit
no_plus n h = ground arith

byte_back : (b : ℕ) → b < 256 → byte_value (hex_digit (b / 16)) (hex_digit (b % 16)) ≡ some b
unfolding byte_value
byte_back b h =
    rw
      (
        no_plus (b / 16) (omega arith),
        digit_back (b / 16) (omega arith),
        digit_back (b % 16) (omega arith),
      )
      (ap some (omega arith))

-- The text written for the bytes of an attribute is read as the bytes.
decode_hex-encode_hex :
    (bytes : List ℕ) → All IsByte bytes → decode_hex (encode_hex bytes) ≡ some bytes
unfolding decode_hex encode_hex
decode_hex-encode_hex [] h = refl
decode_hex-encode_hex (b ∷ bytes) h = rw (byte_back b h.0, decode_hex-encode_hex bytes h.1)

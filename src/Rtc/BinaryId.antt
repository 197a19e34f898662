-- ===== src/Rtc/BinaryId.antt =====
-- The binary ids of rust/crates/browser-platform/src/rtc/manifest.rs: a prefix and 16 bytes in
-- lower-case hexadecimal digits.
pub mod RoundTrip
use p2p_transmission.Prelude.{
  ℕ, ◌+◌, ◌-◌, ◌*◌, ◌/◌, ◌%◌, Bool, true, false, ◌==◌, ◌&&◌, ◌||◌, ltb, leb, if◌then◌else◌, List,
  [], ◌∷◌, ◌++◌, all, Option, none, some,
}
use p2p_transmission.Prelude.Text.{Text, byte_len, is_ascii_digit}

-- `HEX[n]`, for `n` below 16.
abbrev pub hex_digit : ℕ → ℕ
hex_digit n = if ltb n 10 then b'0' + n else b'a' + (n - 10)

abbrev pub hex_bytes : List ℕ → Text
hex_bytes [] = []
hex_bytes (byte ∷ rest) = hex_digit (byte / 16) ∷ hex_digit (byte % 16) ∷ hex_bytes rest

unfoldable pub format_binary_id : Text → List ℕ → Text
format_binary_id prefix bytes = prefix ++ b'_' ∷ hex_bytes bytes

-- `str::strip_prefix`.
unfoldable pub strip_prefix : Text → Text → Option Text
strip_prefix [] value = some value
strip_prefix (c ∷ prefix) [] = none
strip_prefix (c ∷ prefix) (d ∷ value) = if c == d then strip_prefix prefix value else none

-- `is_ascii_digit` or one of `a..=f`.
abbrev pub is_lower_hex : ℕ → Bool
is_lower_hex c = is_ascii_digit c || (leb b'a' c && leb c b'f')

-- The value of a digit that `from_str_radix(_, 16)` reads.
abbrev pub digit_value : ℕ → ℕ
digit_value c = if leb c b'9' then c - b'0' else c - b'a' + 10

-- Two digits for each byte.
abbrev pub read_bytes : Text → List ℕ
read_bytes [] = []
read_bytes (c ∷ []) = []
read_bytes (c ∷ d ∷ rest) = (digit_value c * 16 + digit_value d) ∷ read_bytes rest

-- What follows the prefix: 32 digits.
unfoldable pub parse_hex : Option Text → Option (List ℕ)
parse_hex none = none
parse_hex (some hex) =
    if byte_len hex == 32 && all is_lower_hex hex then some (read_bytes hex) else none

unfoldable pub parse_binary_id : Text → Text → Option (List ℕ)
parse_binary_id value prefix = parse_hex (strip_prefix (prefix ++ b'_' ∷ []) value)

-- ===== src/Rtc/BinaryId/RoundTrip.antt =====
-- `format_binary_id` and `parse_binary_id` are inverse to each other.
use p2p_transmission.Prelude.{
  ℕ, ◌+◌, ◌-◌, ◌*◌, ◌/◌, ◌%◌, ◌<◌, ◌≡◌, refl, ap, ap₂, sym, subst, ◌∙◌, Bool, true, ◌==◌, ◌&&◌,
  if◌then◌else◌, List, [], ◌∷◌, ◌++◌, All, all, length, Option, none, some, arith, append_assoc,
}
use p2p_transmission.Prelude.Text.{Text, byte_len}
use p2p_transmission.Protocol.Bytes.{IsByte}
use p2p_transmission.Rtc.BinaryId.{
  hex_digit, hex_bytes, format_binary_id, strip_prefix, is_lower_hex, digit_value, read_bytes,
  parse_hex, parse_binary_id,
}

strip_prefix-append : (prefix rest : Text) → strip_prefix prefix (prefix ++ rest) ≡ some rest
unfolding strip_prefix
strip_prefix-append [] rest = refl
strip_prefix-append (c ∷ prefix) rest = ground (arith, strip_prefix-append prefix rest)

strip_prefix-some :
    (prefix value rest : Text) → strip_prefix prefix value ≡ some rest → prefix ++ rest ≡ value
unfolding strip_prefix
strip_prefix-some [] value rest h = cc
strip_prefix-some (c ∷ prefix) [] rest h = cc
strip_prefix-some (c ∷ prefix) (d ∷ value) rest h =
    ground (arith, strip_prefix-some prefix value rest)

digit_value-hex_digit : (n : ℕ) → n < 16 → digit_value (hex_digit n) ≡ n
digit_value-hex_digit n h = ground arith

hex_digit-lower : (n : ℕ) → n < 16 → is_lower_hex (hex_digit n) ≡ true
hex_digit-lower n h = ground arith

byte_len-hex_digit : (n : ℕ) → n < 16 → byte_len (hex_digit n ∷ []) ≡ 1
byte_len-hex_digit n h = ground arith

hex_digit-digit_value : (c : ℕ) → is_lower_hex c ≡ true → hex_digit (digit_value c) ≡ c
hex_digit-digit_value c h = ground arith

digit_value-lt : (c : ℕ) → is_lower_hex c ≡ true → digit_value c < 16
digit_value-lt c h = ground arith

-- What the written bytes are: two lower-case digits for each, which read back.
record IsWritten (bytes : List ℕ) : Type 0 where
  two_digits : byte_len (hex_bytes bytes) ≡ 2 * length bytes
  lower : all is_lower_hex (hex_bytes bytes) ≡ true
  read_back : read_bytes (hex_bytes bytes) ≡ bytes

hex_bytes-IsWritten : (bytes : List ℕ) → All IsByte bytes → IsWritten bytes
hex_bytes-IsWritten [] a = record { two_digits = refl; lower = refl; read_back = refl }
hex_bytes-IsWritten (b ∷ bs) a =
    let rest = hex_bytes-IsWritten bs a.1 in
    let high : b / 16 < 16 = omega (arith, a.0) in
    let low : b % 16 < 16 = omega arith in
    record {
      two_digits = omega (
        arith,
        rest.two_digits,
        byte_len-hex_digit (b / 16) high,
        byte_len-hex_digit (b % 16) low,
      );
      lower = rw (hex_digit-lower (b / 16) high, hex_digit-lower (b % 16) low) rest.lower;
      read_back =
          ap₂ ◌∷◌
            (rw (digit_value-hex_digit (b / 16) high, digit_value-hex_digit (b % 16) low)
              (omega arith))
            rest.read_back;
    }

-- What the read bytes are: they are written as they were read.
record IsRecovered (hex : Text) (n : ℕ) : Type 0 where
  written : hex_bytes (read_bytes hex) ≡ hex
  counted : length (read_bytes hex) ≡ n
  bytes : All IsByte (read_bytes hex)

lower-utf8 : (c : ℕ) → is_lower_hex c ≡ true → byte_len (c ∷ []) ≡ 1
lower-utf8 c h = ground arith

read_bytes-IsRecovered :
    (hex : Text) (n : ℕ) → byte_len hex ≡ 2 * n → all is_lower_hex hex ≡ true → IsRecovered hex n
read_bytes-IsRecovered [] n l h = record { written = refl; counted = omega (arith, l); bytes = tt }
read_bytes-IsRecovered (c ∷ []) n l h = absurd (omega (arith, l, lower-utf8 c (ground arith)))
read_bytes-IsRecovered (c ∷ d ∷ hex) n l h =
    let hc : is_lower_hex c ≡ true = ground arith in
    let hd : is_lower_hex d ≡ true = ground arith in
    let rest =
      read_bytes-IsRecovered hex (n - 1) (omega (arith, l, lower-utf8 c hc, lower-utf8 d hd))
        (ground arith) in
    let vc = digit_value-lt c hc in
    let vd = digit_value-lt d hd in
    let high : (digit_value c * 16 + digit_value d) / 16 ≡ digit_value c = omega (arith, vc, vd) in
    let low : (digit_value c * 16 + digit_value d) % 16 ≡ digit_value d = omega (arith, vc, vd) in
    record {
      written =
          ap₂ ◌∷◌ (ap hex_digit high ∙ hex_digit-digit_value c hc)
            (ap₂ ◌∷◌ (ap hex_digit low ∙ hex_digit-digit_value d hd) rest.written);
      counted = omega (arith, rest.counted, l, lower-utf8 c hc, lower-utf8 d hd);
      bytes = (omega (arith, vc, vd), rest.bytes);
    }

parse_hex-written :
    (bytes : List ℕ)
    → byte_len (hex_bytes bytes) ≡ 32
    → IsWritten bytes
    → parse_hex (some (hex_bytes bytes)) ≡ some bytes
unfolding parse_hex
parse_hex-written bytes sized w = rw (sized, w.lower) (ap some w.read_back)

-- Sixteen bytes are parsed from the id that is formatted from them.
pub parse-format_binary_id :
    (prefix : Text) (bytes : List ℕ)
    → All IsByte bytes
    → length bytes ≡ 16
    → parse_binary_id (format_binary_id prefix bytes) prefix ≡ some bytes
unfolding parse_binary_id format_binary_id
parse-format_binary_id prefix bytes a n =
    let w = hex_bytes-IsWritten bytes a in
    let stripped : strip_prefix (prefix ++ b'_' ∷ []) (prefix ++ b'_' ∷ hex_bytes bytes)
        ≡ some (hex_bytes bytes) =
      ap (strip_prefix (prefix ++ b'_' ∷ []))
        (sym (append_assoc prefix (b'_' ∷ []) (hex_bytes bytes)))
      ∙ strip_prefix-append (prefix ++ b'_' ∷ []) (hex_bytes bytes) in
    let sized : byte_len (hex_bytes bytes) ≡ 32 = omega (arith, w.two_digits, n) in
    ap parse_hex stripped ∙ parse_hex-written bytes sized w

tested-some :
    (n : ℕ) (b : Bool) (x bytes : List ℕ)
    → (if n == 32 && b then some x else none) ≡ some bytes
    → (n ≡ 32) × (b ≡ true) × (x ≡ bytes)
tested-some n b x bytes h = (ground arith, ground arith, ground arith)

parse_hex-some :
    (o : Option Text) (bytes : List ℕ)
    → parse_hex o ≡ some bytes
    → (hex : Text) × (o ≡ some hex)
      × (byte_len hex ≡ 32)
      × (all is_lower_hex hex ≡ true)
      × (read_bytes hex ≡ bytes)
unfolding parse_hex
parse_hex-some none bytes h = cc
parse_hex-some (some hex) bytes h =
    let (sized, lower, e) =
      tested-some (byte_len hex) (all is_lower_hex hex) (read_bytes hex) bytes h in
    (hex, refl, sized, lower, e)

-- An id that is parsed is the one that is formatted from its bytes, which are sixteen.
pub format-parse_binary_id :
    (value prefix : Text) (bytes : List ℕ)
    → parse_binary_id value prefix ≡ some bytes
    → (format_binary_id prefix bytes ≡ value) × (length bytes ≡ 16) × All IsByte bytes
unfolding parse_binary_id format_binary_id
format-parse_binary_id value prefix bytes h =
    let (hex, found, sized, lower, e) =
      parse_hex-some (strip_prefix (prefix ++ b'_' ∷ []) value) bytes h in
    let r = read_bytes-IsRecovered hex 16 sized lower in
    let same_value : prefix ++ b'_' ∷ hex ≡ value =
      sym (append_assoc prefix (b'_' ∷ []) hex)
      ∙ strip_prefix-some (prefix ++ b'_' ∷ []) value hex found in
    subst (λ (x : List ℕ). (prefix ++ b'_' ∷ hex_bytes x ≡ value) × (length x ≡ 16) × All IsByte x)
      e (ap (λ (x : Text). prefix ++ b'_' ∷ x) r.written ∙ same_value, r.counted, r.bytes)

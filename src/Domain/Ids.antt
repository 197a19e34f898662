-- ===== src/Domain/Ids.antt =====
-- rust/crates/domain/src/ids.rs. The four identifier types are texts that `parse` has accepted.
use p2p_transmission.Prelude.{
  ℕ, Bool, not, ◌==◌, ◌||◌, ltb, Option, none, some, map, Result, ok, err, ◌>>◌, reject_if,
}
use p2p_transmission.Prelude.Text.{
  Text, byte_len, is_ascii_alphanumeric, trim, to_ascii_upper, find_char,
}

abbrev pub max_id_bytes : ℕ
max_id_bytes = 64

pub data IdError : Type 0 where
  empty : Text → IdError
  too_long : Text → IdError
  invalid_character : Text → ℕ → IdError

-- The characters that an identifier may hold.
abbrev pub is_id_char : ℕ → Bool
is_id_char c = is_ascii_alphanumeric c || c == b'_' || c == b'-'

-- `value.is_empty()`.
abbrev pub is_empty : Text → Bool
is_empty s = byte_len s == 0

abbrev pub reject_char : {E : Type 0} → Option ℕ → (ℕ → E) → Result E (Unit {0})
reject_char none e = ok tt
reject_char (some c) e = err (e c)

unfoldable pub validate_id : Text → Text → Result IdError (Unit {0})
validate_id value kind = do
  reject_if (is_empty value) (empty kind)
  reject_if (ltb max_id_bytes (byte_len value)) (too_long kind)
  reject_char (find_char (λ c. not (is_id_char c)) value) (invalid_character kind)

-- `SessionId::parse` and its siblings, which differ in the kind that an error names.
unfoldable pub parse_id : Text → Text → Result IdError Text
unfolding validate_id
parse_id kind value = do validate_id value kind; ok value

abbrev pub SessionId : Type 0
SessionId = Text

abbrev pub RoomId : Type 0
RoomId = Text

abbrev pub PeerId : Type 0
PeerId = Text

abbrev pub RequestId : Type 0
RequestId = Text

abbrev pub RoomCode : Type 0
RoomCode = Text

pub data RoomCodeError : Type 0 where
  invalid_length : RoomCodeError
  invalid_code_character : ℕ → RoomCodeError

-- `RoomCode::LENGTH`.
abbrev pub room_code_length : ℕ
room_code_length = 6

-- `RoomCode::parse`.
unfoldable pub parse_room_code : Text → Result RoomCodeError RoomCode
parse_room_code input = do
  let value = map to_ascii_upper (trim input)
  reject_if (not (byte_len value == room_code_length)) invalid_length
  reject_char (find_char (λ c. not (is_ascii_alphanumeric c)) value) invalid_code_character
  ok value

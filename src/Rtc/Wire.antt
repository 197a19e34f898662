-- ===== src/Rtc/Wire.antt =====
-- rust/crates/browser-platform/src/rtc/wire.rs: the chunks that are sent and the bounds that a
-- received chunk must keep. The conversions between `u32`, `usize` and `u64` cannot fail for the
-- lengths of chunks and are left out.
pub mod Delivery
use p2p_transmission.Prelude.{
  ℕ, not, ◌==◌, ◌||◌, leb, if◌then◌else◌, List, ◌++◌, Option, none, some,
}
use p2p_transmission.Prelude.Words.{checked_add}
use p2p_transmission.OrdMap.Order.{text_order, same}
use p2p_transmission.Protocol.Version.{current_protocol}
use p2p_transmission.Protocol.Frame.{BinaryChunkHeader, encode}

pub record ChunkBounds : Type 0 where
  pub transfer_id : List ℕ
  pub file_id : List ℕ
  pub offset : ℕ
  pub upper_bound : ℕ

-- `filter(|next| *next <= upper_bound)`.
abbrev pub filter_upper : ℕ → Option ℕ → Option ℕ
filter_upper upper none = none
filter_upper upper (some next) = if leb next upper then some next else none

unfoldable pub next_offset : ChunkBounds → BinaryChunkHeader → ℕ → Option ℕ
next_offset bounds header payload_len =
    if not (same header.transfer_id bounds.transfer_id)
      || not (same header.file_id bounds.file_id)
      || not (header.offset == bounds.offset)
      || not (header.payload_len == payload_len)
    then none
    else filter_upper bounds.upper_bound (checked_add bounds.offset payload_len)

-- The header that `encode_binary_chunk` writes.
abbrev pub chunk_header : List ℕ → List ℕ → ℕ → ℕ → BinaryChunkHeader
chunk_header transfer_id file_id offset payload_len = record {
  version = current_protocol;
  transfer_id = transfer_id;
  file_id = file_id;
  offset = offset;
  payload_len = payload_len;
}

unfoldable pub encode_binary_chunk : List ℕ → List ℕ → ℕ → ℕ → List ℕ → List ℕ
encode_binary_chunk transfer_id file_id offset payload_len payload =
    encode (chunk_header transfer_id file_id offset payload_len) ++ payload

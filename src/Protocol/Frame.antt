-- ===== src/Protocol/Frame.antt =====
-- The binary chunk frames of rust/crates/protocol/src/data_channel.rs. A byte array is a list of
-- numbers below 256. Two conversions of the source cannot fail and are left out: `try_into` on a
-- slice of the array's own length, and the `usize` of a length that is at most 64 KiB.
pub mod Decoded
pub mod Layout
pub mod RoundTrip
use p2p_transmission.Prelude.{
  ℕ, ◌+◌, Bool, not, ◌==◌, ltb, List, [], ◌∷◌, ◌++◌, length, drop, get_elem?, Option, none, some,
  Result, ok, err, ◌>>=◌, ◌>>◌, reject_if, ok_or,
}
use p2p_transmission.Prelude.Words.{checked_add}
use p2p_transmission.OrdMap.Order.{text_order, same}
use p2p_transmission.Protocol.Limits.{
  Checked, ProtocolError, max_chunk_bytes, binary_frame_too_short, invalid_magic,
  unsupported_frame_type, chunk_too_large, binary_length_mismatch, offset_overflow,
}
use p2p_transmission.Protocol.Version.{ProtocolVersion, validate_version}
use p2p_transmission.Protocol.Bytes.{be_bytes, from_be, slice}

-- `b"P2P2"`.
abbrev pub chunk_magic : List ℕ
chunk_magic = b'P' ∷ b'2' ∷ b'P' ∷ b'2' ∷ []

abbrev pub chunk_header_len : ℕ
chunk_header_len = 53

abbrev pub data_frame_type : ℕ
data_frame_type = 1

pub record BinaryChunkHeader : Type 0 where
  pub version : ProtocolVersion
  pub transfer_id : List ℕ
  pub file_id : List ℕ
  pub offset : ℕ
  pub payload_len : ℕ

-- The slices that `encode` fills lie end to end.
unfoldable pub encode : BinaryChunkHeader → List ℕ
encode header =
    chunk_magic
    ++ (be_bytes 2 header.version.major
        ++ (be_bytes 2 header.version.minor
            ++ (data_frame_type
                ∷ (header.transfer_id
                    ++ (header.file_id
                        ++ (be_bytes 8 header.offset ++ be_bytes 4 header.payload_len))))))

-- `frame[i]`, read only where the length has been checked.
abbrev pub byte_at : ℕ → List ℕ → ℕ
byte_at i frame = elim (get_elem? frame i) [ some b ↦ b | none ↦ 0 ]

-- The checks of `decode_binary_frame`, in their order, on the values that it reads: the length of
-- the frame, its magic, its type and its header.
unfoldable pub validate_frame : ℕ → List ℕ → ℕ → BinaryChunkHeader → Checked
unfolding validate_version
validate_frame frame_len magic frame_type header = do
  reject_if (ltb frame_len chunk_header_len) binary_frame_too_short
  reject_if (not (same magic chunk_magic)) invalid_magic
  validate_version header.version
  reject_if (not (frame_type == data_frame_type)) (unsupported_frame_type frame_type)
  reject_if (ltb max_chunk_bytes header.payload_len) chunk_too_large
  end ← ok_or (checked_add header.offset header.payload_len) offset_overflow
  expected ← ok_or (checked_add chunk_header_len header.payload_len) binary_length_mismatch
  reject_if (not (frame_len == expected)) binary_length_mismatch

-- The header that the decoder reads.
unfoldable pub read_header : List ℕ → BinaryChunkHeader
read_header frame = record {
  version = record { major = from_be (slice 4 6 frame); minor = from_be (slice 6 8 frame) };
  transfer_id = slice 9 25 frame;
  file_id = slice 25 41 frame;
  offset = from_be (slice 41 49 frame);
  payload_len = from_be (slice 49 53 frame);
}

unfoldable pub decode_binary_frame : List ℕ → Result ProtocolError (BinaryChunkHeader × List ℕ)
decode_binary_frame frame = do
  validate_frame (length frame) (slice 0 4 frame) (byte_at 8 frame) (read_header frame)
  ok (read_header frame, drop chunk_header_len frame)

-- ===== src/Rtc/Wire/Delivery.antt =====
-- A chunk that is sent is one that the receiver decodes and takes within its bounds.
use p2p_transmission.Prelude.{ℕ, ◌+◌, ◌≤◌, ◌≡◌, refl, List, length, some, arith, ok}
use p2p_transmission.Prelude.Words.{u64_max}
use p2p_transmission.OrdMap.Order.{text_order, same_self}
use p2p_transmission.Protocol.Limits.{max_chunk_bytes}
use p2p_transmission.Protocol.Frame.{BinaryChunkHeader, decode_binary_frame}
use p2p_transmission.Protocol.Frame.RoundTrip.{decode-encode}
use p2p_transmission.Rtc.Wire.{ChunkBounds, next_offset, chunk_header, encode_binary_chunk}

-- What the receiver gets out of a frame under its bounds: the payload and the next offset.
pub record IsDelivered (bounds : ChunkBounds) (frame payload : List ℕ) (next : ℕ) : Type 0 where
  pub header : BinaryChunkHeader
  pub decoded : decode_binary_frame frame ≡ ok (header, payload)
  pub taken : next_offset bounds header (length payload) ≡ some next

-- A chunk that is encoded for the file and the offset that the receiver expects, with binary ids, a
-- payload of a chunk's size and an end within the upper bound of 64 bits, is decoded to its payload
-- and taken, and the receiver expects the byte behind it next.
pub encode_binary_chunk-IsDelivered :
    (bounds : ChunkBounds) (payload : List ℕ)
    → length bounds.transfer_id ≡ 16
    → length bounds.file_id ≡ 16
    → length payload ≤ max_chunk_bytes
    → bounds.offset + length payload ≤ bounds.upper_bound
    → bounds.upper_bound ≤ u64_max
    → IsDelivered bounds
        (encode_binary_chunk bounds.transfer_id bounds.file_id bounds.offset
          (length payload)
          payload)
        payload
        (bounds.offset + length payload)
unfolding encode_binary_chunk next_offset
encode_binary_chunk-IsDelivered bounds payload t f p e u = record {
  header = chunk_header bounds.transfer_id bounds.file_id bounds.offset (length payload);
  decoded = decode-encode _ payload (record {
    version_current = refl;
    transfer_id_length = t;
    file_id_length = f;
    payload_length = refl;
    payload_fits = p;
    end_fits = omega arith;
  });
  taken = ground (arith, same_self bounds.transfer_id, same_self bounds.file_id);
}

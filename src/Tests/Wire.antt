-- ===== src/Tests/Wire.antt =====
-- Instances of the results on transfer plans and binary frames.
use p2p_transmission.Rtc.Wire.{ChunkBounds, encode_binary_chunk}
use p2p_transmission.Rtc.Wire.Delivery.{IsDelivered, encode_binary_chunk-IsDelivered}
use p2p_transmission.Prelude.{ℕ, ◌≡◌, refl, true, ltb, arith, List, [], ◌∷◌, ◌++◌, All, all, ok}
use p2p_transmission.OrdMap.Order.{same, text_cmp}
use p2p_transmission.Transfer.{new_chunk_plan}
use p2p_transmission.Transfer.Cover.{ChunkOf, chunk-ChunkOf}
use p2p_transmission.Protocol.Version.{validate_version}
use p2p_transmission.Protocol.Bytes.{IsByte}
use p2p_transmission.Protocol.Frame.{
  BinaryChunkHeader, encode, decode_binary_frame, read_header, validate_frame,
}
use p2p_transmission.Protocol.Frame.RoundTrip.{IsHeaderOf, decode-encode, encode-decode}

chunk-ChunkOf_example : ChunkOf 10 4 9 (record { total_bytes = 10; chunk_bytes = 4 })
unfolding new_chunk_plan
chunk-ChunkOf_example = chunk-ChunkOf 10 4 _ 9 refl (omega arith) (omega arith) (omega arith)

abbrev transfer_bytes : List ℕ
transfer_bytes = 1 ∷ 1 ∷ 1 ∷ 1 ∷ 1 ∷ 1 ∷ 1 ∷ 1 ∷ 1 ∷ 1 ∷ 1 ∷ 1 ∷ 1 ∷ 1 ∷ 1 ∷ 1 ∷ []

abbrev pub file_bytes : List ℕ
file_bytes = 2 ∷ 2 ∷ 2 ∷ 2 ∷ 2 ∷ 2 ∷ 2 ∷ 2 ∷ 2 ∷ 2 ∷ 2 ∷ 2 ∷ 2 ∷ 2 ∷ 2 ∷ 2 ∷ []

abbrev header : BinaryChunkHeader
header = record {
  version = record { major = 5; minor = 1 };
  transfer_id = transfer_bytes;
  file_id = file_bytes;
  offset = 1024;
  payload_len = 3;
}

abbrev payload : List ℕ
payload = 7 ∷ 8 ∷ 9 ∷ []

abbrev frame : List ℕ
frame =
    80
    ∷ 50
    ∷ 80
    ∷ 50
    ∷ 0
    ∷ 5
    ∷ 0
    ∷ 1
    ∷ 1
    ∷ (transfer_bytes ++ file_bytes ++ 0 ∷ 0 ∷ 0 ∷ 0 ∷ 0 ∷ 0 ∷ 4 ∷ 0 ∷ 0 ∷ 0 ∷ 0 ∷ 3 ∷ payload)

decode-encode_example : decode_binary_frame (encode header ++ payload) ≡ ok (header, payload)
decode-encode_example = decode-encode header payload (record {
  version_current = refl;
  transfer_id_length = refl;
  file_id_length = refl;
  payload_length = refl;
  payload_fits = omega arith;
  end_fits = omega arith;
})

-- Every entry of a list of bytes is one.
pub IsByte-all : (bs : List ℕ) → all (λ (b : ℕ). ltb b 256) bs ≡ true → All IsByte bs
IsByte-all [] h = tt
IsByte-all (b ∷ bs) h = (ground arith, IsByte-all bs (ground arith))

encode-decode_example : (encode header ++ payload ≡ frame) × IsHeaderOf header payload
unfolding decode_binary_frame validate_frame validate_version read_header same text_cmp
encode-decode_example = encode-decode frame header payload (IsByte-all frame refl) refl

abbrev receiver_bounds : ChunkBounds
receiver_bounds = record {
  transfer_id = transfer_bytes;
  file_id = file_bytes;
  offset = 1024;
  upper_bound = 1027;
}

encode_binary_chunk-IsDelivered_example :
    IsDelivered receiver_bounds
      (encode_binary_chunk transfer_bytes file_bytes 1024 3 payload)
      payload
      1027
encode_binary_chunk-IsDelivered_example =
    encode_binary_chunk-IsDelivered receiver_bounds payload refl refl (omega arith) (omega arith)
      (omega arith)

-- ===== src/Protocol/Frame/Decoded.antt =====
-- What a successful decode says of the slices of the frame.
use p2p_transmission.Prelude.{
  ℕ, ◌+◌, ◌≤◌, ◌≡◌, ap, ◌↔◌, List, length, drop, arith, ok, ok-injective, >>=-eq-ok,
}
use p2p_transmission.Prelude.Words.{u64_max}
use p2p_transmission.OrdMap.Order.{text_order, same_iff}
use p2p_transmission.Protocol.Limits.{max_chunk_bytes}
use p2p_transmission.Protocol.Version.{current_protocol}
use p2p_transmission.Protocol.Bytes.{slice}
use p2p_transmission.Protocol.Frame.{
  BinaryChunkHeader, chunk_magic, data_frame_type, byte_at, validate_frame, read_header,
  decode_binary_frame,
}

-- What the checks accept.
pub record IsAccepted (frame_len : ℕ) (magic : List ℕ) (frame_type : ℕ) (h : BinaryChunkHeader)
    : Type 0 where
  pub magic_known : magic ≡ chunk_magic
  pub version_current : h.version ≡ current_protocol
  pub type_known : frame_type ≡ data_frame_type
  pub payload_fits : h.payload_len ≤ max_chunk_bytes
  pub end_fits : h.offset + h.payload_len ≤ u64_max
  pub length_exact : frame_len ≡ 53 + h.payload_len

-- The checks accept exactly these.
pub validate_frame-IsAccepted :
    (n : ℕ) (magic : List ℕ) (frame_type : ℕ) (h : BinaryChunkHeader)
    → (validate_frame n magic frame_type h ≡ ok tt) ↔ IsAccepted n magic frame_type h
unfolding validate_frame
validate_frame-IsAccepted n magic frame_type h = (
  λ e. ground (arith, same_iff magic chunk_magic),
  λ a. ground (
    arith,
    same_iff magic chunk_magic,
    a.magic_known,
    a.version_current,
    a.type_known,
    a.payload_fits,
    a.end_fits,
    a.length_exact,
  ),
)

-- A frame that decodes: its checks pass, and what is returned was read from it.
pub record IsDecoded (f : List ℕ) (h : BinaryChunkHeader) (payload : List ℕ) : Type 0 where
  pub accepted : IsAccepted (length f) (slice 0 4 f) (byte_at 8 f) (read_header f)
  pub header : read_header f ≡ h
  pub rest : drop 53 f ≡ payload

-- Decoding succeeds exactly so.
pub decode-IsDecoded :
    (f : List ℕ) (h : BinaryChunkHeader) (payload : List ℕ)
    → (decode_binary_frame f ≡ ok (h, payload)) ↔ IsDecoded f h payload
unfolding decode_binary_frame
decode-IsDecoded f h payload =
    (forward, λ d. rw ((validate_frame-IsAccepted _ _ _ _).1 d.accepted) (rw (d.header, d.rest)))
  where
    forward : decode_binary_frame f ≡ ok (h, payload) → IsDecoded f h payload
    forward e =
        let (_, checks, result) =
          >>=-eq-ok (validate_frame (length f) (slice 0 4 f) (byte_at 8 f) (read_header f)) _ e in
        record {
          accepted = (validate_frame-IsAccepted _ _ _ _).0 checks;
          header = ap (λ (x : BinaryChunkHeader × List ℕ). x.0) (ok-injective result);
          rest = ap (λ (x : BinaryChunkHeader × List ℕ). x.1) (ok-injective result);
        }

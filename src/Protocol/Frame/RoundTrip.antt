-- ===== src/Protocol/Frame/RoundTrip.antt =====
-- `encode` and `decode_binary_frame` are inverse to each other.
use p2p_transmission.Prelude.{
  ℕ, ◌+◌, ◌≤◌, ◌<◌, ◌≡◌, refl, sym, ap, subst, ◌∙◌, List, [], ◌∷◌, ◌++◌, All, append_assoc, length,
  drop, take, length-append, length-drop, get_elem?, zero, suc, ap₂, arith, ok, some,
}
use p2p_transmission.Prelude.Words.{u64_max}
use p2p_transmission.OrdMap.Order.{text_order}
use p2p_transmission.Protocol.Limits.{max_chunk_bytes}
use p2p_transmission.Protocol.Version.{current_protocol}
use p2p_transmission.Protocol.Bytes.{
  be_bytes, from_be, IsByte, slice, length-be_bytes, from_be-be_bytes, be_bytes-from_be,
}
use p2p_transmission.Protocol.Frame.{
  BinaryChunkHeader, chunk_magic, data_frame_type, byte_at, encode, read_header,
  decode_binary_frame,
}
use p2p_transmission.Protocol.Frame.Decoded.{IsAccepted, IsDecoded, decode-IsDecoded}
use p2p_transmission.Protocol.Frame.Layout.{
  Parts, HasLengths, layout, parts, layout-parts, parts-HasLengths, parts-layout,
}

-- A header that the decoder accepts before a payload.
pub record IsHeaderOf (h : BinaryChunkHeader) (payload : List ℕ) : Type 0 where
  pub version_current : h.version ≡ current_protocol
  pub transfer_id_length : length h.transfer_id ≡ 16
  pub file_id_length : length h.file_id ≡ 16
  pub payload_length : length payload ≡ h.payload_len
  pub payload_fits : h.payload_len ≤ max_chunk_bytes
  pub end_fits : h.offset + h.payload_len ≤ u64_max

abbrev header_parts : BinaryChunkHeader → Parts
header_parts h = record {
  magic = chunk_magic;
  major = be_bytes 2 h.version.major;
  minor = be_bytes 2 h.version.minor;
  kind = data_frame_type ∷ [];
  transfer_id = h.transfer_id;
  file_id = h.file_id;
  offset = be_bytes 8 h.offset;
  payload_len = be_bytes 4 h.payload_len;
}

encode-layout :
    (h : BinaryChunkHeader) (payload : List ℕ)
    → encode h ++ payload ≡ layout (header_parts h) payload
unfolding encode
encode-layout h payload = simp append_assoc

header_parts-HasLengths :
    (h : BinaryChunkHeader) (payload : List ℕ) → IsHeaderOf h payload → HasLengths (header_parts h)
header_parts-HasLengths h payload v = record {
  magic_length = refl;
  major_length = refl;
  minor_length = refl;
  kind_length = refl;
  transfer_id_length = v.transfer_id_length;
  file_id_length = v.file_id_length;
  offset_length = length-be_bytes 8 h.offset;
  payload_len_length = length-be_bytes 4 h.payload_len;
}

be_two : (n : ℕ) → n < 65536 → from_be (be_bytes 2 n) ≡ n
be_two n h = from_be-be_bytes 2 n h

take_kind : (f : List ℕ) (n b : ℕ) → take 1 (drop n f) ≡ b ∷ [] → get_elem? f n ≡ some b
take_kind [] zero b e = absurd cc
take_kind [] (suc n) b e = absurd cc
take_kind (x ∷ f) zero b e = cc
take_kind (x ∷ f) (suc n) b e = take_kind f n b e

byte_at-kind : (f : List ℕ) (b : ℕ) → slice 8 9 f ≡ b ∷ [] → byte_at 8 f ≡ b
byte_at-kind f b e = rw (take_kind f 8 b e, byte_at)

-- The length of a frame with the header's parts.
length-layout :
    (p : Parts) (payload : List ℕ) → HasLengths p → length (layout p payload) ≡ 53 + length payload
length-layout p payload l = simp length-append (omega (arith, l))

-- Reading a frame that was laid out from a header.
layout-IsDecoded :
    (h : BinaryChunkHeader) (payload f : List ℕ)
    → IsHeaderOf h payload
    → parts f ≡ header_parts h
    → drop 53 f ≡ payload
    → length f ≡ 53 + length payload
    → IsDecoded f h payload
unfolding read_header
layout-IsDecoded h payload f v e d n = record {
  accepted = subst (IsAccepted (length f) (slice 0 4 f) (byte_at 8 f)) (sym same_header) (record {
    magic_known = ap (λ (p : Parts). p.magic) e;
    version_current = v.version_current;
    type_known = byte_at-kind f data_frame_type (ap (λ (p : Parts). p.kind) e);
    payload_fits = v.payload_fits;
    end_fits = v.end_fits;
    length_exact = omega (arith, v.payload_length);
  });
  header = same_header;
  rest = d;
}
  where
    major_read : from_be (slice 4 6 f) ≡ h.version.major
    major_read =
        ap (λ (p : Parts). from_be p.major) e
        ∙ be_two h.version.major (ground (arith, v.version_current))

    minor_read : from_be (slice 6 8 f) ≡ h.version.minor
    minor_read =
        ap (λ (p : Parts). from_be p.minor) e
        ∙ be_two h.version.minor (ground (arith, v.version_current))

    offset_read : from_be (slice 41 49 f) ≡ h.offset
    offset_read =
        ap (λ (p : Parts). from_be p.offset) e
        ∙ from_be-be_bytes 8 h.offset (omega (arith, v.end_fits))

    len_read : from_be (slice 49 53 f) ≡ h.payload_len
    len_read =
        ap (λ (p : Parts). from_be p.payload_len) e
        ∙ from_be-be_bytes 4 h.payload_len (omega (arith, v.payload_fits))

    same_header : read_header f ≡ h
    same_header = λ i. record {
      version = record { major = major_read i; minor = minor_read i };
      transfer_id = (e i).transfer_id;
      file_id = (e i).file_id;
      offset = offset_read i;
      payload_len = len_read i;
    }

-- Decoding an encoded header with its payload after it gives both back. Conditions: the version is the
-- current one, the two ids have 16 bytes, and the payload has the announced length, which is at most
-- 64 KiB and ends at most at 2^64 - 1.
pub decode-encode :
    (h : BinaryChunkHeader) (payload : List ℕ)
    → IsHeaderOf h payload
    → decode_binary_frame (encode h ++ payload) ≡ ok (h, payload)
decode-encode h payload v =
    let l = header_parts-HasLengths h payload v in
    let (e, d) = parts-layout (header_parts h) payload l in
    rw (encode-layout h payload) (
      (decode-IsDecoded _ h payload).1
        (layout-IsDecoded h payload _ v e d (length-layout (header_parts h) payload l)))

kind-byte_at : (f : List ℕ) (n : ℕ) → n < length f → take 1 (drop n f) ≡ byte_at n f ∷ []
kind-byte_at [] n h = absurd (omega arith)
kind-byte_at (x ∷ f) zero h = refl
kind-byte_at (x ∷ f) (suc n) h = kind-byte_at f n (omega arith)

All-take : (n : ℕ) (f : List ℕ) → All IsByte f → All IsByte (take n f)
All-take zero f a = tt
All-take (suc n) [] a = tt
All-take (suc n) (x ∷ f) a = (a.0, All-take n f a.1)

All-drop : (n : ℕ) (f : List ℕ) → All IsByte f → All IsByte (drop n f)
All-drop zero f a = a
All-drop (suc n) [] a = tt
All-drop (suc n) (x ∷ f) a = All-drop n f a.1

-- The parts of a frame that decodes are those of the header that it decodes to.
IsDecoded-header_parts :
    (f : List ℕ) (h : BinaryChunkHeader) (payload : List ℕ)
    → All IsByte f
    → IsDecoded f h payload
    → HasLengths (parts f)
    → header_parts (read_header f) ≡ parts f
unfolding read_header
IsDecoded-header_parts f h payload a d l = λ i. record {
  magic = sym d.accepted.magic_known i;
  major =
      be_bytes-from_be 2 (slice 4 6 f) l.major_length (All-take 2 (drop 4 f) (All-drop 4 f a)) i;
  minor =
      be_bytes-from_be 2 (slice 6 8 f) l.minor_length (All-take 2 (drop 6 f) (All-drop 6 f a)) i;
  kind = kind_read i;
  transfer_id = slice 9 25 f;
  file_id = slice 25 41 f;
  offset =
      be_bytes-from_be 8 (slice 41 49 f) l.offset_length (All-take 8 (drop 41 f) (All-drop 41 f a))
        i;
  payload_len =
      be_bytes-from_be 4 (slice 49 53 f) l.payload_len_length
        (All-take 4 (drop 49 f) (All-drop 49 f a)) i;
}
  where
    kind_read : data_frame_type ∷ [] ≡ slice 8 9 f
    kind_read =
        ap (λ (b : ℕ). b ∷ []) (sym d.accepted.type_known)
        ∙ sym (kind-byte_at f 8 (omega (arith, d.accepted.length_exact)))

IsDecoded-IsHeaderOf :
    (f : List ℕ) (h : BinaryChunkHeader) (payload : List ℕ)
    → IsDecoded f h payload
    → HasLengths (parts f)
    → IsHeaderOf (read_header f) payload
unfolding read_header
IsDecoded-IsHeaderOf f h payload d l = record {
  version_current = d.accepted.version_current;
  transfer_id_length = l.transfer_id_length;
  file_id_length = l.file_id_length;
  payload_length = omega (arith, ap length d.rest, length-drop 53 f, d.accepted.length_exact);
  payload_fits = d.accepted.payload_fits;
  end_fits = d.accepted.end_fits;
}

-- A frame of bytes that decodes is the encoded header with the payload behind it, and the header
-- is one that the decoder accepts.
pub encode-decode :
    (f : List ℕ) (h : BinaryChunkHeader) (payload : List ℕ)
    → All IsByte f
    → decode_binary_frame f ≡ ok (h, payload)
    → (encode h ++ payload ≡ f) × IsHeaderOf h payload
encode-decode f h payload a e =
    let d = (decode-IsDecoded f h payload).0 e in
    let l = parts-HasLengths f (omega (arith, d.accepted.length_exact)) in
    subst (λ (x : BinaryChunkHeader). (encode x ++ payload ≡ f) × IsHeaderOf x payload) d.header
      (
        encode-layout (read_header f) payload
            ∙ ap₂ layout (IsDecoded-header_parts f h payload a d l) (sym d.rest)
            ∙ layout-parts f,
        IsDecoded-IsHeaderOf f h payload d l,
      )

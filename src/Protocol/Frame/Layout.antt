-- ===== src/Protocol/Frame/Layout.antt =====
-- A frame as its parts end to end: what each slice of the decoder reads from them, and that every
-- frame of at least the header's length consists of its slices.
use p2p_transmission.Prelude.{
  ℕ, ◌+◌, ◌≤◌, ◌≡◌, refl, sym, ap, ◌∙◌, List, ◌++◌, length, take, drop, take-append, drop-append,
  drop-drop, take-append-drop, length-take, length-drop, arith,
}
use p2p_transmission.Protocol.Bytes.{slice}

-- The parts of a header.
pub record Parts : Type 0 where
  pub magic : List ℕ
  pub major : List ℕ
  pub minor : List ℕ
  pub kind : List ℕ
  pub transfer_id : List ℕ
  pub file_id : List ℕ
  pub offset : List ℕ
  pub payload_len : List ℕ

pub record HasLengths (p : Parts) : Type 0 where
  pub magic_length : length p.magic ≡ 4
  pub major_length : length p.major ≡ 2
  pub minor_length : length p.minor ≡ 2
  pub kind_length : length p.kind ≡ 1
  pub transfer_id_length : length p.transfer_id ≡ 16
  pub file_id_length : length p.file_id ≡ 16
  pub offset_length : length p.offset ≡ 8
  pub payload_len_length : length p.payload_len ≡ 4

abbrev pub layout : Parts → List ℕ → List ℕ
layout p payload =
    p.magic
    ++ (p.major
        ++ (p.minor
            ++ (p.kind
                ++ (p.transfer_id ++ (p.file_id ++ (p.offset ++ (p.payload_len ++ payload)))))))

abbrev pub parts : List ℕ → Parts
parts frame = record {
  magic = slice 0 4 frame;
  major = slice 4 6 frame;
  minor = slice 6 8 frame;
  kind = slice 8 9 frame;
  transfer_id = slice 9 25 frame;
  file_id = slice 25 41 frame;
  offset = slice 41 49 frame;
  payload_len = slice 49 53 frame;
}

-- The tail from a boundary on is the next part and the tail from the next boundary on.
cut : (m n : ℕ) (frame : List ℕ) → take n (drop m frame) ++ drop (m + n) frame ≡ drop m frame
cut m n frame =
    ap (◌++◌ (take n (drop m frame))) (sym (drop-drop m n frame))
    ∙ take-append-drop n (drop m frame)

-- Every frame consists of its slices.
pub layout-parts : (frame : List ℕ) → layout (parts frame) (drop 53 frame) ≡ frame
layout-parts frame = rw (
  cut 49 4 frame,
  cut 41 8 frame,
  cut 25 16 frame,
  cut 9 16 frame,
  cut 8 1 frame,
  cut 6 2 frame,
  cut 4 2 frame,
  take-append-drop 4 frame,
)

slice_length :
    (m n : ℕ) (frame : List ℕ) → m + n ≤ length frame → length (take n (drop m frame)) ≡ n
slice_length m n frame h = length-take n (drop m frame) (omega (arith, length-drop m frame))

pub parts-HasLengths : (frame : List ℕ) → 53 ≤ length frame → HasLengths (parts frame)
parts-HasLengths frame h = record {
  magic_length = slice_length 0 4 frame (omega arith);
  major_length = slice_length 4 2 frame (omega arith);
  minor_length = slice_length 6 2 frame (omega arith);
  kind_length = slice_length 8 1 frame (omega arith);
  transfer_id_length = slice_length 9 16 frame (omega arith);
  file_id_length = slice_length 25 16 frame (omega arith);
  offset_length = slice_length 41 8 frame (omega arith);
  payload_len_length = slice_length 49 4 frame (omega arith);
}

-- Where the tail from `m` on begins with a part, its slice is the part, and the rest follows.
next_part :
    (m n : ℕ) (frame xs ys : List ℕ)
    → drop m frame ≡ xs ++ ys
    → length xs ≡ n
    → (take n (drop m frame) ≡ xs) × (drop (m + n) frame ≡ ys)
next_part m n frame xs ys e h = (
  ap (take n) e ∙ take-append n xs ys h,
  sym (drop-drop m n frame) ∙ ap (drop n) e ∙ drop-append n xs ys h,
)

-- The slices of parts laid end to end are the parts, and the payload follows.
pub parts-layout :
    (p : Parts) (payload : List ℕ)
    → HasLengths p
    → (parts (layout p payload) ≡ p) × (drop 53 (layout p payload) ≡ payload)
parts-layout p payload l =
    let (e0, d4) = next_part 0 4 f p.magic _ refl l.magic_length in
    let (e4, d6) = next_part 4 2 f p.major _ d4 l.major_length in
    let (e6, d8) = next_part 6 2 f p.minor _ d6 l.minor_length in
    let (e8, d9) = next_part 8 1 f p.kind _ d8 l.kind_length in
    let (e9, d25) = next_part 9 16 f p.transfer_id _ d9 l.transfer_id_length in
    let (e25, d41) = next_part 25 16 f p.file_id _ d25 l.file_id_length in
    let (e41, d49) = next_part 41 8 f p.offset _ d41 l.offset_length in
    let (e49, d53) = next_part 49 4 f p.payload_len _ d49 l.payload_len_length in
    (
      λ i. record {
        magic = e0 i;
        major = e4 i;
        minor = e6 i;
        kind = e8 i;
        transfer_id = e9 i;
        file_id = e25 i;
        offset = e41 i;
        payload_len = e49 i;
      },
      d53,
    )
  where
    f : List ℕ
    f = layout p payload

-- ===== src/Transfer/Cover.antt =====
-- A plan cuts `total_bytes` into pieces that lie end to end: each byte is in exactly one piece.
use p2p_transmission.Prelude.{
  ℕ, ◌+◌, ◌*◌, ◌/◌, ◌≤◌, ◌<◌, ◌≡◌, false, ◌==◌, leb, none, some, subst, arith, inl, inr, Bool-cases,
  ok,
}
use p2p_transmission.Prelude.Words.{u64_max, u32_max}
use p2p_transmission.Transfer.{
  ChunkPlan, ChunkDescriptor, new_chunk_plan, chunk_count, chunk, SegmentPlan, SegmentDescriptor,
  new_segment_plan, segment_count, segment,
}
use p2p_transmission.Transfer.Pieces.{
  pieces, piece_length, IsPlan, Holds, IsPieceOf, mul-le, pieces-lt, piece_fits, piece_unique,
  piece-IsPieceOf,
}

module _ {total size : ℕ} (v : IsPlan total size) where
  chunk-some :
      (i : ℕ)
      → i < pieces total size
      → chunk (record { total_bytes = total; chunk_bytes = size }) i
        ≡ some (record {
          index = i;
          offset = i * size;
          length = piece_length total size i;
          is_last = i + 1 == pieces total size;
        })
  unfolding chunk chunk_count
  chunk-some i h = ground (arith, mul-le i total size v.size_pos h, piece_fits v i h, v.total_fits)

  chunk-none :
      (i : ℕ)
      → pieces total size ≤ i
      → chunk (record { total_bytes = total; chunk_bytes = size }) i ≡ none
  unfolding chunk chunk_count
  chunk-none i h = ground arith

  segment-some :
      (i : ℕ)
      → i < pieces total size
      → segment (record { total_bytes = total; segment_bytes = size }) i
        ≡ some (record {
          index = i;
          offset = i * size;
          length = piece_length total size i;
          is_last = i + 1 == pieces total size;
        })
  unfolding segment segment_count
  segment-some i h =
      ground (arith, mul-le i total size v.size_pos h, piece_fits v i h, v.total_fits)

  segment-none :
      (i : ℕ)
      → pieces total size ≤ i
      → segment (record { total_bytes = total; segment_bytes = size }) i ≡ none
  unfolding segment segment_count
  segment-none i h = ground arith

module _ {total size : ℕ} (v : IsPlan total size) where
  chunk_unique :
      (i b : ℕ) (e : ChunkDescriptor)
      → chunk (record { total_bytes = total; chunk_bytes = size }) i ≡ some e
      → Holds e.offset e.length b
      → i ≡ b / size
  chunk_unique i b e c h = elim (Bool-cases (leb (pieces total size) i)) [
    | inl past ↦ absurd (ground (arith, chunk-none v i))
    | inr inside ↦
        let o : e.offset ≡ i * size = ground (arith, chunk-some v i) in
        let l : e.length ≡ piece_length total size i = ground (arith, chunk-some v i) in
        piece_unique v i b (omega arith)
  ]

  segment_unique :
      (i b : ℕ) (e : SegmentDescriptor)
      → segment (record { total_bytes = total; segment_bytes = size }) i ≡ some e
      → Holds e.offset e.length b
      → i ≡ b / size
  segment_unique i b e c h = elim (Bool-cases (leb (pieces total size) i)) [
    | inl past ↦ absurd (ground (arith, segment-none v i))
    | inr inside ↦
        let o : e.offset ≡ i * size = ground (arith, segment-some v i) in
        let l : e.length ≡ piece_length total size i = ground (arith, segment-some v i) in
        piece_unique v i b (omega arith)
  ]

-- For each byte there is a chunk, at the index `b / size`, that holds it, and no other chunk does.
abbrev pub ChunkOf : ℕ → ℕ → ℕ → ChunkPlan → Type 0
ChunkOf total size b plan =
    ((d : ChunkDescriptor) × (chunk plan (b / size) ≡ some d)
      × IsPieceOf total size b d.offset d.length d.is_last)
    × ((i : ℕ) (e : ChunkDescriptor)
        → chunk plan i ≡ some e
        → Holds e.offset e.length b
        → i ≡ b / size)

abbrev pub SegmentOf : ℕ → ℕ → ℕ → SegmentPlan → Type 0
SegmentOf total size b plan =
    ((d : SegmentDescriptor) × (segment plan (b / size) ≡ some d)
      × IsPieceOf total size b d.offset d.length d.is_last)
    × ((i : ℕ) (e : SegmentDescriptor)
        → segment plan i ≡ some e
        → Holds e.offset e.length b
        → i ≡ b / size)

new_plan : (size : ℕ) → (size == 0) ≡ false → 0 < size
new_plan size h = ground arith

-- With a chunk size of 32 bits and a total of 64 bits, each byte of a chunk plan lies in the chunk at
-- the index `b / size` and in no other.
pub chunk-ChunkOf :
    (total size : ℕ) (plan : ChunkPlan) (b : ℕ)
    → new_chunk_plan total size ≡ ok plan
    → size ≤ u32_max
    → total ≤ u64_max
    → b < total
    → ChunkOf total size b plan
unfolding new_chunk_plan
chunk-ChunkOf total size plan b e s t h =
    subst (ChunkOf total size b) {x = record { total_bytes = total; chunk_bytes = size }}
      (ground arith)
      (
        (_, chunk-some v (b / size) (pieces-lt total size b v.size_pos h), piece-IsPieceOf v b h),
        λ i e c. chunk_unique v i b e c,
      )
  where
    v : IsPlan total size
    v = record { size_pos = ground arith; size_fits = s; total_fits = t }

-- With a segment size of 32 bits and a total of 64 bits, each byte of a segment plan lies in the
-- segment at the index `b / size` and in no other.
pub segment-SegmentOf :
    (total size : ℕ) (plan : SegmentPlan) (b : ℕ)
    → new_segment_plan total size ≡ ok plan
    → size ≤ u32_max
    → total ≤ u64_max
    → b < total
    → SegmentOf total size b plan
unfolding new_segment_plan
segment-SegmentOf total size plan b e s t h =
    subst (SegmentOf total size b) {x = record { total_bytes = total; segment_bytes = size }}
      (ground arith)
      (
        (_, segment-some v (b / size) (pieces-lt total size b v.size_pos h), piece-IsPieceOf v b h),
        λ i e c. segment_unique v i b e c,
      )
  where
    v : IsPlan total size
    v = record { size_pos = ground arith; size_fits = s; total_fits = t }

-- ===== src/Transfer.antt =====
-- rust/crates/transfer/src/lib.rs: the plans that cut a file into chunks and segments, and the
-- thresholds of the send buffer. `chunk_count` and `index + 1` stay below 2^64 by the bounds proved
-- in `Cover`.
pub mod Pieces
pub mod Cover
use p2p_transmission.Prelude.{
  ℕ, ◌+◌, ◌-◌, ◌*◌, ◌/◌, ◌%◌, ◌^◌, min, Bool, ◌==◌, ltb, leb, if◌then◌else◌, Option, none, some,
  Result, ok, err,
}
use p2p_transmission.Prelude.Text.{Text}
use p2p_transmission.Prelude.Words.{checked_mul, checked_sub}

abbrev pub default_chunk_bytes : ℕ
default_chunk_bytes = 32 * 1024

abbrev pub default_buffer_high_bytes : ℕ
default_buffer_high_bytes = 4 * 1024 * 1024

abbrev pub default_buffer_low_bytes : ℕ
default_buffer_low_bytes = 1024 * 1024

abbrev pub default_stream_segment_bytes : ℕ
default_stream_segment_bytes = 8 * 1024 * 1024

pub data TransferDirection : Type 0 where
  send receive : TransferDirection

pub record TransferFile : Type 0 where
  pub name : Text
  pub mime : Option Text
  pub size_bytes : ℕ

pub data TransferPlanError : Type 0 where
  zero_chunk_size zero_segment_size : TransferPlanError

pub record ChunkDescriptor : Type 0 where
  pub index : ℕ
  pub offset : ℕ
  pub length : ℕ
  pub is_last : Bool

pub record ChunkPlan : Type 0 where
  pub total_bytes : ℕ
  pub chunk_bytes : ℕ

unfoldable pub new_chunk_plan : ℕ → ℕ → Result TransferPlanError ChunkPlan
new_chunk_plan total_bytes chunk_bytes =
    if chunk_bytes == 0
    then err zero_chunk_size
    else ok (record { total_bytes = total_bytes; chunk_bytes = chunk_bytes })

unfoldable pub chunk_count : ChunkPlan → ℕ
chunk_count plan =
    if plan.total_bytes == 0 then 0 else (plan.total_bytes - 1) / plan.chunk_bytes + 1

infixl 5 ◌>>=◌
abbrev ◌>>=◌ {ℓ κ} : {A : Type ℓ} {B : Type κ} → Option A → (A → Option B) → Option B
none >>= f = none
some a >>= f = f a

-- The length is cast to `u32`.
unfoldable pub chunk : ChunkPlan → ℕ → Option ChunkDescriptor
chunk plan index = if leb (chunk_count plan) index then none else (do
  offset ← checked_mul index plan.chunk_bytes
  remaining ← checked_sub plan.total_bytes offset
  some (record {
    index = index;
    offset = offset;
    length = min remaining plan.chunk_bytes % 2 ^ 32;
    is_last = index + 1 == chunk_count plan;
  }))

pub record SegmentDescriptor : Type 0 where
  pub index : ℕ
  pub offset : ℕ
  pub length : ℕ
  pub is_last : Bool

pub record SegmentPlan : Type 0 where
  pub total_bytes : ℕ
  pub segment_bytes : ℕ

unfoldable pub new_segment_plan : ℕ → ℕ → Result TransferPlanError SegmentPlan
new_segment_plan total_bytes segment_bytes =
    if segment_bytes == 0
    then err zero_segment_size
    else ok (record { total_bytes = total_bytes; segment_bytes = segment_bytes })

unfoldable pub segment_count : SegmentPlan → ℕ
segment_count plan =
    if plan.total_bytes == 0 then 0 else (plan.total_bytes - 1) / plan.segment_bytes + 1

unfoldable pub segment : SegmentPlan → ℕ → Option SegmentDescriptor
segment plan index = if leb (segment_count plan) index then none else (do
  offset ← checked_mul index plan.segment_bytes
  remaining ← checked_sub plan.total_bytes offset
  some (record {
    index = index;
    offset = offset;
    length = min remaining plan.segment_bytes % 2 ^ 32;
    is_last = index + 1 == segment_count plan;
  }))

pub record BackpressurePolicy : Type 0 where
  pub chunk_bytes : ℕ
  pub high_watermark_bytes : ℕ
  pub low_watermark_bytes : ℕ

abbrev pub default_policy : BackpressurePolicy
default_policy = record {
  chunk_bytes = default_chunk_bytes;
  high_watermark_bytes = default_buffer_high_bytes;
  low_watermark_bytes = default_buffer_low_bytes;
}

unfoldable pub should_pause : BackpressurePolicy → ℕ → Bool
should_pause policy buffered = leb policy.high_watermark_bytes buffered

unfoldable pub can_resume : BackpressurePolicy → ℕ → Bool
can_resume policy buffered = leb buffered policy.low_watermark_bytes

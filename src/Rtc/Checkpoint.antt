-- ===== src/Rtc/Checkpoint.antt =====
-- rust/crates/browser-platform/src/rtc/checkpoint.rs: which committed prefixes of a batch of files
-- are accepted when a transfer resumes. The bytes of a text are its characters where all of them
-- are hexadecimal digits.
pub mod Prefix
pub mod Resume
pub mod Live
pub mod Matching
pub mod Agreement
use p2p_transmission.Prelude.{
  ℕ, zero, suc, ◌+◌, ◌%◌, Bool, true, false, not, ◌==◌, ◌&&◌, ◌||◌, ltb, leb, if◌then◌else◌, List,
  [], ◌∷◌, length, all, get_elem?, Option, none, some, Result, ok, err, ◌>>=◌, ◌>>◌, reject_if,
  ok_or,
}
use p2p_transmission.Prelude.Text.{Text, byte_len, is_ascii_hexdigit}
use p2p_transmission.OrdMap.Order.{text_order, same}
use p2p_transmission.Protocol.Control.{ResumeCursor}

pub record ManifestFile : Type 0 where
  pub file_id : Text
  pub size_bytes : ℕ

pub record Checkpoint : Type 0 where
  pub file_id : Text
  pub size_bytes : ℕ
  pub committed_bytes : ℕ
  pub last_segment_blake3 : Option Text

pub record PendingCheckpoint : Type 0 where
  pub file_index : ℕ
  pub committed_bytes : ℕ
  pub blake3 : Text

pub record ResolvedCheckpoint : Type 0 where
  pub committed_bytes : ℕ
  pub last_segment_blake3 : Option Text

pub data ResumeDisposition : Type 0 where
  keep_current : ResumeDisposition
  promote_pending : ℕ → ResumeDisposition

pub data CheckpointError : Type 0 where
  zero_segment_bytes file_count_mismatch file_order_mismatch : CheckpointError
  invalid_checkpoint state_mismatch : CheckpointError

abbrev pub valid_blake3 : Text → Bool
valid_blake3 value = byte_len value == 64 && all is_ascii_hexdigit value

abbrev pub is_none : Option Text → Bool
is_none none = true
is_none (some _) = false

abbrev pub is_some_valid : Option Text → Bool
is_some_valid none = false
is_some_valid (some hash) = valid_blake3 hash

abbrev pub is_aligned : ℕ → Checkpoint → Bool
is_aligned segment_bytes file =
    leb file.committed_bytes file.size_bytes
    && (file.committed_bytes == file.size_bytes || file.committed_bytes % segment_bytes == 0)

abbrev pub is_verified : Checkpoint → Bool
is_verified file =
    (file.committed_bytes == 0 && is_none file.last_segment_blake3)
    || (ltb 0 file.committed_bytes && is_some_valid file.last_segment_blake3)

-- The loop of `validate_checkpoint_prefix`.
unfoldable pub check_files : ℕ → Bool → List Checkpoint → Result CheckpointError (Unit {0})
check_files segment_bytes incomplete_seen [] = ok tt
check_files segment_bytes incomplete_seen (file ∷ rest) = do
  reject_if
      (not (is_aligned segment_bytes file)
        || not (is_verified file)
        || (incomplete_seen && ltb 0 file.committed_bytes))
      invalid_checkpoint
  check_files segment_bytes (ltb file.committed_bytes file.size_bytes || incomplete_seen) rest

unfoldable pub validate_checkpoint_prefix : ℕ → List Checkpoint → Result CheckpointError (Unit {0})
unfolding check_files
validate_checkpoint_prefix segment_bytes files = do
  reject_if (segment_bytes == 0) zero_segment_bytes
  check_files segment_bytes false files

abbrev pub cursor_committed : Option ResumeCursor → ℕ
cursor_committed none = 0
cursor_committed (some cursor) = cursor.committed_bytes

abbrev pub cursor_hash : Option ResumeCursor → Option Text
cursor_hash none = none
cursor_hash (some cursor) = cursor.last_segment_blake3

-- What a cursor, or its absence, says of a file.
abbrev pub resolved_from : Option ResumeCursor → ResolvedCheckpoint
resolved_from cursor = record {
  committed_bytes = cursor_committed cursor;
  last_segment_blake3 = cursor_hash cursor;
}

abbrev pub other_file : ManifestFile → Option ResumeCursor → Bool
other_file file none = false
other_file file (some cursor) = not (same cursor.file_id file.file_id)

-- The loop of `resolve_manifest_resume`, from the file at `index` on.
unfoldable pub resolve_files :
    ℕ → List ManifestFile → List ResumeCursor → Result CheckpointError (List ResolvedCheckpoint)
resolve_files index [] resume = ok []
resolve_files index (file ∷ rest) resume = do
  reject_if (other_file file (get_elem? resume index)) file_order_mismatch
  resolved ← resolve_files (index + 1) rest resume
  ok (resolved_from (get_elem? resume index) ∷ resolved)

abbrev pub checkpoints_of : List ManifestFile → List ResolvedCheckpoint → List Checkpoint
checkpoints_of [] resolved = []
checkpoints_of (file ∷ rest) [] = []
checkpoints_of (file ∷ rest) (r ∷ resolved) =
    record {
      file_id = file.file_id;
      size_bytes = file.size_bytes;
      committed_bytes = r.committed_bytes;
      last_segment_blake3 = r.last_segment_blake3;
    }
    ∷ checkpoints_of rest resolved

-- `!resume.is_empty() && resume.len() != count`.
abbrev pub wrong_count : List ResumeCursor → ℕ → Bool
wrong_count resume count = not (length resume == 0) && not (length resume == count)

unfoldable pub resolve_manifest_resume :
    ℕ → List ManifestFile → List ResumeCursor → Result CheckpointError (List ResolvedCheckpoint)
unfolding resolve_files validate_checkpoint_prefix
resolve_manifest_resume segment_bytes files resume = do
  reject_if (wrong_count resume (length files)) file_count_mismatch
  resolved ← resolve_files 0 files resume
  validate_checkpoint_prefix segment_bytes (checkpoints_of files resolved)
  ok resolved

-- ===== src/Rtc/Checkpoint/Live.antt =====
-- `match_live_resume` of rust/crates/browser-platform/src/rtc/checkpoint.rs: a receiver that is still
-- running compares its own checkpoints with the cursors that it is asked to resume from.
use p2p_transmission.Prelude.{
  ℕ, ◌+◌, Bool, true, false, not, ◌==◌, ◌&&◌, if◌then◌else◌, List, [], ◌∷◌, length, Option, none,
  some, Result, ok, ◌>>=◌, ◌>>◌, reject_if, ok_or,
}
use p2p_transmission.Prelude.Text.{Text}
use p2p_transmission.OrdMap.Order.{text_order, same}
use p2p_transmission.Protocol.Control.{ResumeCursor}
use p2p_transmission.Rtc.Checkpoint.{
  Checkpoint, PendingCheckpoint, ResolvedCheckpoint, ResumeDisposition, keep_current,
  promote_pending, CheckpointError, file_count_mismatch, state_mismatch, is_none, wrong_count,
  resolved_from, validate_checkpoint_prefix,
}

-- `iter().find(|cursor| cursor.file_id == file_id)`.
unfoldable pub find_cursor : Text → List ResumeCursor → Option ResumeCursor
find_cursor file_id [] = none
find_cursor file_id (cursor ∷ rest) =
    if same cursor.file_id file_id then some cursor else find_cursor file_id rest

abbrev pub no_cursors : List ResumeCursor → Bool
no_cursors [] = true
no_cursors (cursor ∷ rest) = false

-- The cursor of a file: none where there are no cursors at all.
unfoldable pub resolve_file :
    List ResumeCursor → Checkpoint → Result CheckpointError ResolvedCheckpoint
unfolding find_cursor
resolve_file resume file = if no_cursors resume then ok (resolved_from none) else do
  cursor ← ok_or (find_cursor file.file_id resume) state_mismatch
  ok (resolved_from (some cursor))

-- `map` and `collect` into a `Result`: the first error stops.
unfoldable pub resolve_current :
    List ResumeCursor → List Checkpoint → Result CheckpointError (List ResolvedCheckpoint)
unfolding resolve_file
resolve_current resume [] = ok []
resolve_current resume (file ∷ rest) = do
  resolved ← resolve_file resume file
  others ← resolve_current resume rest
  ok (resolved ∷ others)

-- The checkpoints that the cursors describe.
abbrev pub received_of : List Checkpoint → List ResolvedCheckpoint → List Checkpoint
received_of [] resolved = []
received_of (file ∷ rest) [] = []
received_of (file ∷ rest) (r ∷ resolved) =
    record {
      file_id = file.file_id;
      size_bytes = file.size_bytes;
      committed_bytes = r.committed_bytes;
      last_segment_blake3 = r.last_segment_blake3;
    }
    ∷ received_of rest resolved

abbrev pub same_hash : Option Text → Option Text → Bool
same_hash none none = true
same_hash (some a) (some b) = same a b
same_hash _ _ = false

abbrev pub current_matches : Checkpoint → ResolvedCheckpoint → Bool
current_matches file received =
    received.committed_bytes == file.committed_bytes
    && (if received.committed_bytes == 0
        then is_none received.last_segment_blake3
        else same_hash received.last_segment_blake3 file.last_segment_blake3)

abbrev pub pending_matches : Option PendingCheckpoint → ℕ → ResolvedCheckpoint → Bool
pending_matches none file_index received = false
pending_matches (some pending) file_index received =
    pending.file_index == file_index
    && pending.committed_bytes == received.committed_bytes
    && same_hash (some pending.blake3) received.last_segment_blake3

abbrev pub is_some : Option ℕ → Bool
is_some none = false
is_some (some _) = true

-- The file at `file_index` is brought to the pending checkpoint.
abbrev pub promotes : Option PendingCheckpoint → ℕ → Checkpoint → ResolvedCheckpoint → Bool
promotes pending file_index file received =
    pending_matches pending file_index received
    && not (received.committed_bytes == file.committed_bytes)

-- The loop over the files, from `file_index` on.
unfoldable pub match_files :
    Option PendingCheckpoint
    → ℕ
    → Option ℕ
    → List Checkpoint
    → List ResolvedCheckpoint
    → Result CheckpointError (Option ℕ)
match_files pending file_index promotion [] resolved = ok promotion
match_files pending file_index promotion (file ∷ rest) [] = ok promotion
match_files pending file_index promotion (file ∷ rest) (received ∷ resolved) = do
  reject_if
      (not (current_matches file received) && not (pending_matches pending file_index received))
      state_mismatch
  reject_if (promotes pending file_index file received && is_some promotion) state_mismatch
  match_files pending (file_index + 1)
      (if promotes pending file_index file received then some file_index else promotion) rest
      resolved

abbrev pub disposition_of : Option ℕ → ResumeDisposition
disposition_of none = keep_current
disposition_of (some file_index) = promote_pending file_index

unfoldable pub match_live_resume :
    ℕ
    → List Checkpoint
    → Option PendingCheckpoint
    → List ResumeCursor
    → Result CheckpointError ResumeDisposition
unfolding resolve_current match_files
match_live_resume segment_bytes current pending resume = do
  reject_if (wrong_count resume (length current)) file_count_mismatch
  resolved ← resolve_current resume current
  validate_checkpoint_prefix segment_bytes (received_of current resolved)
  promotion ← match_files pending 0 none current resolved
  ok (disposition_of promotion)

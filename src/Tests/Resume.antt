-- ===== src/Tests/Resume.antt =====
-- Instances of the results on resumed transfers.
use p2p_transmission.Prelude.{◌≡◌, refl, ◌↔◌, List, [], ◌∷◌, none, some, ok}
use p2p_transmission.Prelude.Text.{Text, text}
use p2p_transmission.OrdMap.Order.{same, text_cmp}
use p2p_transmission.Protocol.Control.{ResumeCursor}
use p2p_transmission.Rtc.Checkpoint.{
  ManifestFile, Checkpoint, PendingCheckpoint, ResolvedCheckpoint, promote_pending, checkpoints_of,
  check_files, validate_checkpoint_prefix, resolve_manifest_resume,
}
use p2p_transmission.Rtc.Checkpoint.Live.{
  find_cursor, resolve_file, resolve_current, match_files, match_live_resume,
}
use p2p_transmission.Rtc.Checkpoint.Prefix.{IsPrefix, validate_checkpoint_prefix-IsPrefix}
use p2p_transmission.Rtc.Checkpoint.Resume.{IsResolved, resolve_manifest_resume-IsResolved}
use p2p_transmission.Rtc.Checkpoint.Agreement.{IsAgreed, match_live_resume-IsAgreed}

abbrev hash : Text
hash = text "aaaaaaaaaaaaaaaaaaaaaaaaaaaaaaaaaaaaaaaaaaaaaaaaaaaaaaaaaaaaaaaa"

abbrev half_a : Checkpoint
half_a = record {
  file_id = text "file_a";
  size_bytes = 16;
  committed_bytes = 8;
  last_segment_blake3 = some hash;
}

abbrev start_a : Checkpoint
start_a = record {
  file_id = text "file_a";
  size_bytes = 16;
  committed_bytes = 0;
  last_segment_blake3 = none;
}

abbrev start_b : Checkpoint
start_b = record {
  file_id = text "file_b";
  size_bytes = 8;
  committed_bytes = 0;
  last_segment_blake3 = none;
}

abbrev cursor_a : ResumeCursor
cursor_a = record { file_id = text "file_a"; committed_bytes = 8; last_segment_blake3 = some hash }

abbrev cursor_b : ResumeCursor
cursor_b = record { file_id = text "file_b"; committed_bytes = 0; last_segment_blake3 = none }

abbrev pending_a : PendingCheckpoint
pending_a = record { file_index = 0; committed_bytes = 8; blake3 = hash }

abbrev manifest_files : List ManifestFile
manifest_files =
    record { file_id = text "file_a"; size_bytes = 16 }
    ∷ record { file_id = text "file_b"; size_bytes = 8 }
    ∷ []

abbrev both_resolved : List ResolvedCheckpoint
both_resolved =
    record { committed_bytes = 8; last_segment_blake3 = some hash }
    ∷ record { committed_bytes = 0; last_segment_blake3 = none }
    ∷ []

validate_checkpoint_prefix-IsPrefix_example :
    (validate_checkpoint_prefix 8 (half_a ∷ start_b ∷ []) ≡ ok tt)
    ↔ IsPrefix 8 (half_a ∷ start_b ∷ [])
validate_checkpoint_prefix-IsPrefix_example =
    validate_checkpoint_prefix-IsPrefix 8 (half_a ∷ start_b ∷ [])

resolve_manifest_resume-IsResolved_example :
    (resolve_manifest_resume 8 manifest_files (cursor_a ∷ cursor_b ∷ []) ≡ ok both_resolved) ↔ (
      IsResolved manifest_files (cursor_a ∷ cursor_b ∷ []) both_resolved
      × IsPrefix 8 (checkpoints_of manifest_files both_resolved))
resolve_manifest_resume-IsResolved_example =
    resolve_manifest_resume-IsResolved 8 manifest_files (cursor_a ∷ cursor_b ∷ []) both_resolved

match_live_resume-IsAgreed_example :
    IsAgreed 8
      (start_a ∷ start_b ∷ [])
      (some pending_a)
      (cursor_b ∷ cursor_a ∷ [])
      (promote_pending 0)
unfolding match_live_resume validate_checkpoint_prefix check_files resolve_current resolve_file
    find_cursor match_files same text_cmp
match_live_resume-IsAgreed_example =
    match_live_resume-IsAgreed 8 (start_a ∷ start_b ∷ []) (some pending_a)
      (cursor_b ∷ cursor_a ∷ []) (promote_pending 0) refl

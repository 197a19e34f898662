-- ===== src/Rtc/Manifest.antt =====
-- rust/crates/browser-platform/src/rtc/manifest.rs: the plan of a transfer and the offer that a manifest
-- brings.
use p2p_transmission.Prelude.{
  ℕ, Bool, true, false, ◌==◌, ◌&&◌, ◌||◌, not, leb, ltb, if◌then◌else◌, List, [], ◌∷◌, length,
  Result, ok, ◌>>=◌, ◌>>◌, reject_if, ok_or,
}
use p2p_transmission.Prelude.Text.{Text, text}
use p2p_transmission.Prelude.Words.{checked_add}
use p2p_transmission.Transfer.{TransferFile, default_stream_segment_bytes}
use p2p_transmission.Protocol.Limits.{
  max_files_per_manifest, max_buffered_transfer_bytes, max_transfer_bytes,
}
use p2p_transmission.Protocol.Control.{FileManifest, TransferMode, buffered, streamed}
use p2p_transmission.Rtc.BinaryId.{parse_binary_id}

pub record IncomingFile : Type 0 where
  pub file_bytes : List ℕ
  pub file : TransferFile

pub record IncomingOffer : Type 0 where
  pub transfer_id : Text
  pub transfer_bytes : List ℕ
  pub mode : TransferMode
  pub files : List IncomingFile

pub data IncomingManifestError : Type 0 where
  invalid_transfer_id invalid_file_id buffered_batch_unsupported : IncomingManifestError

unfoldable pub incoming_file : FileManifest → Result IncomingManifestError IncomingFile
incoming_file file = do
  file_bytes ← ok_or (parse_binary_id file.file_id (text "file")) invalid_file_id
  ok (record {
    file_bytes = file_bytes;
    file = record { name = file.name; mime = file.mime; size_bytes = file.size_bytes };
  })

unfoldable pub incoming_files : List FileManifest → Result IncomingManifestError (List IncomingFile)
incoming_files [] = ok []
incoming_files (file ∷ rest) = do
  incoming ← incoming_file file
  others ← incoming_files rest
  ok (incoming ∷ others)

abbrev pub is_buffered : TransferMode → Bool
is_buffered buffered = true
is_buffered (streamed segment_bytes) = false

unfoldable pub from_manifest :
    Text → TransferMode → List FileManifest → Result IncomingManifestError IncomingOffer
from_manifest transfer_id mode manifests = do
  transfer_bytes ← ok_or (parse_binary_id transfer_id (text "transfer")) invalid_transfer_id
  files ← incoming_files manifests
  reject_if (is_buffered mode && not (length files == 1)) buffered_batch_unsupported
  ok (record {
    transfer_id = transfer_id;
    transfer_bytes = transfer_bytes;
    mode = mode;
    files = files;
  })

pub record TransferPlan : Type 0 where
  pub total_bytes : ℕ
  pub mode : TransferMode

pub data TransferPlanError : Type 0 where
  invalid_file_count size_overflow transfer_too_large : TransferPlanError

abbrev pub file_size : TransferFile → ℕ
file_size file = file.size_bytes

-- The `try_fold`.
unfoldable pub add_sizes : ℕ → List TransferFile → Result TransferPlanError ℕ
add_sizes total [] = ok total
add_sizes total (file ∷ rest) = do
  next ← ok_or (checked_add total file.size_bytes) size_overflow
  add_sizes next rest

abbrev pub mode_for : ℕ → ℕ → TransferMode
mode_for count total_bytes =
    if count == 1 && leb total_bytes max_buffered_transfer_bytes
    then buffered
    else streamed default_stream_segment_bytes

unfoldable pub plan_transfer : List TransferFile → Result TransferPlanError TransferPlan
plan_transfer files = do
  reject_if (length files == 0 || ltb max_files_per_manifest (length files)) invalid_file_count
  total_bytes ← add_sizes 0 files
  reject_if (ltb max_transfer_bytes total_bytes) transfer_too_large
  ok (record { total_bytes = total_bytes; mode = mode_for (length files) total_bytes })

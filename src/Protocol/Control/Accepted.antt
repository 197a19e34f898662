-- ===== src/Protocol/Control/Accepted.antt =====
-- Which control messages are accepted, described without the validators.
use p2p_transmission.Prelude.{
  ℕ, ◌+◌, ◌%◌, ◌≤◌, ◌<◌, ◌≡◌, refl, ◌↔◌, ◌==◌, ◌||◌, ltb, List, [], ◌∷◌, All, length, arith, ok,
  reject_if, ok_or, >>=-eq-ok,
}
use p2p_transmission.Prelude.Text.{Text, text}
use p2p_transmission.Prelude.Words.{u64_max, checked_add}
use p2p_transmission.Protocol.Limits.{
  max_transfer_bytes, max_stream_segment_bytes, min_stream_segment_bytes, max_files_per_manifest,
  max_chunk_bytes, validate_token,
}
use p2p_transmission.Protocol.Version.{ProtocolVersion, current_protocol, validate_version}
use p2p_transmission.Protocol.Control.{
  FileManifest, TransferMode, buffered, streamed, ControlMessage, manifest, segment_commit,
  mode_max_bytes, validate_file, validate_mode, validate_manifest, validate_segment_commit,
  validate_body, validate_message, no_files, add_files,
}
use p2p_transmission.Protocol.Control.Files.{
  reject_if-ok, add_files-AreFiles, total_size, IsDistinct,
}
use p2p_transmission.Protocol.Control.Fields.{
  IsToken, IsFile, IsBlake3, validate_token_iff, validate_file_iff, validate_blake3_iff,
}

module _ {T : Type 0} {P Q : T → Type 0} (f : (x : T) → P x ↔ Q x) where
  pub All-iff : (xs : List T) → All P xs ↔ All Q xs
  All-iff [] = (λ h. tt, λ h. tt)
  All-iff (x ∷ xs) =
      (λ h. ((f x).0 h.0, (All-iff xs).0 h.1), λ h. ((f x).1 h.0, (All-iff xs).1 h.1))

pub validate_version_iff :
    (v : ProtocolVersion) → (validate_version v ≡ ok tt) ↔ (v ≡ current_protocol)
unfolding validate_version
validate_version_iff v = (λ h. same_version (ground arith) (ground arith), λ h. rw h refl)
  where
    same_version : v.major ≡ 5 → v.minor ≡ 1 → v ≡ current_protocol
    same_version a b = λ i. record { major = a i; minor = b i }

-- The envelope that every message has.
abbrev pub IsAddressed : ControlMessage → Type 0
IsAddressed m = (m.version ≡ current_protocol) × IsToken m.transfer_id

pub validate_message_iff :
    (m : ControlMessage)
    → (validate_message m ≡ ok tt) ↔ (IsAddressed m × (validate_body m.body ≡ ok tt))
unfolding validate_message
validate_message_iff m = (
  λ h.
      let (_, v, h₁) = >>=-eq-ok (validate_version m.version) _ h in
      let (_, t, h₂) = >>=-eq-ok (validate_token m.transfer_id _) _ h₁ in
      (((validate_version_iff m.version).0 v, (validate_token_iff m.transfer_id _).0 t), h₂),
  λ ((v, t), b).
      rw
        (
          (validate_version_iff m.version).1 v,
          (validate_token_iff m.transfer_id (text "transfer_id")).1 t,
        )
        b,
)

-- A streamed transfer has segments of 1 to 16 MiB, in whole chunks of the largest size.
abbrev pub IsMode : TransferMode → Type 0
IsMode buffered = Unit
IsMode (streamed n) =
    (min_stream_segment_bytes ≤ n) × (n ≤ max_stream_segment_bytes) × (n % max_chunk_bytes ≡ 0)

validate_mode_iff : (mode : TransferMode) → (validate_mode mode ≡ ok tt) ↔ IsMode mode
unfolding validate_mode
validate_mode_iff buffered = (λ h. tt, λ h. refl)
validate_mode_iff (streamed n) =
    (λ h. (ground arith, ground arith, ground arith), λ (a, b, c). ground arith)

abbrev manifest_id : FileManifest → Text
manifest_id file = file.file_id

abbrev manifest_size : FileManifest → ℕ
manifest_size file = file.size_bytes

-- 1 to 10 files with distinct ids and plain names, within the limit of the mode.
pub record IsOffer (mode : TransferMode) (files : List FileManifest) : Type 0 where
  pub mode_known : IsMode mode
  pub some_files : 0 < length files
  pub few_files : length files ≤ max_files_per_manifest
  pub each_file : All IsFile files
  pub distinct : IsDistinct manifest_id files
  pub within_limit : total_size manifest_size files ≤ mode_max_bytes mode

mode_max_bytes-fits : (mode : TransferMode) → mode_max_bytes mode ≤ u64_max
mode_max_bytes-fits buffered = omega arith
mode_max_bytes-fits (streamed n) = omega arith

validate_manifest_iff :
    (mode : TransferMode) (files : List FileManifest)
    → (validate_manifest mode files ≡ ok tt) ↔ IsOffer mode files
unfolding validate_manifest
validate_manifest_iff mode files = (
  λ h.
      let (_, m, h₁) = >>=-eq-ok (validate_mode mode) _ h in
      let (_, n, h₂) =
        >>=-eq-ok (reject_if (no_files files || ltb max_files_per_manifest (length files)) _) _
          h₁ in
      let (total, t, h₃) =
        >>=-eq-ok (add_files manifest_id manifest_size validate_file [] 0 files) _ h₂ in
      let a = (add_files-AreFiles manifest_id manifest_size validate_file total files).0 t in
      let counted =
        reject_if-ok (no_files files || ltb max_files_per_manifest (length files)) _ n in
      let bounded = reject_if-ok (ltb (mode_max_bytes mode) total) _ h₃ in
      record {
        mode_known = (validate_mode_iff mode).0 m;
        some_files = ground (arith, counted);
        few_files = ground (arith, counted);
        each_file = (All-iff validate_file_iff files).0 a.each_valid;
        distinct = a.distinct;
        within_limit = ground (arith, a.sum, bounded);
      },
  λ o.
      let a =
        (add_files-AreFiles manifest_id manifest_size validate_file (total_size manifest_size files)
            files).1
          (record {
            each_valid = (All-iff validate_file_iff files).1 o.each_file;
            distinct = o.distinct;
            sum = refl;
            fits = omega (arith, o.within_limit, mode_max_bytes-fits mode);
          }) in
      rw ((validate_mode_iff mode).1 o.mode_known, a)
        (ground (arith, o.some_files, o.few_files, o.within_limit)),
)

-- A manifest is accepted exactly if it is addressed to this version with a token and offers 1 to 10
-- valid files with distinct ids, in a known mode and within the byte limit of that mode.
pub manifest-IsOffer :
    (v : ProtocolVersion) (id : Text) (mode : TransferMode) (files : List FileManifest)
    → (validate_message (record { version = v; transfer_id = id; body = manifest mode files })
        ≡ ok tt)
      ↔ (((v ≡ current_protocol) × IsToken id) × IsOffer mode files)
unfolding validate_body
manifest-IsOffer v id mode files =
    let envelope =
      validate_message_iff (record { version = v; transfer_id = id; body = manifest mode files }) in
    (
      λ h. ((envelope.0 h).0, (validate_manifest_iff mode files).0 (envelope.0 h).1),
      λ (e, o). envelope.1 (e, (validate_manifest_iff mode files).1 o),
    )

-- The announced bytes of a segment: 1 to 16 MiB, within the largest transfer.
pub record IsCommit (file_id : Text) (offset bytes : ℕ) (blake3 : Text) : Type 0 where
  pub id : IsToken file_id
  pub some_bytes : 0 < bytes
  pub one_segment : bytes ≤ max_stream_segment_bytes
  pub within_transfer : offset + bytes ≤ max_transfer_bytes
  pub hash : IsBlake3 blake3

validate_segment_commit_iff :
    (file_id : Text) (offset bytes : ℕ) (blake3 : Text)
    → (validate_segment_commit file_id offset bytes blake3 ≡ ok tt)
      ↔ IsCommit file_id offset bytes blake3
unfolding validate_segment_commit
validate_segment_commit_iff file_id offset bytes blake3 = (
  λ h.
      let (_, t, h₁) = >>=-eq-ok (validate_token file_id _) _ h in
      let (_, n, h₂) =
        >>=-eq-ok (reject_if (bytes == 0 || ltb max_stream_segment_bytes bytes) _) _ h₁ in
      let (end, e, h₃) = >>=-eq-ok (ok_or (checked_add offset bytes) _) _ h₂ in
      let (_, m, b) = >>=-eq-ok (reject_if (ltb max_transfer_bytes end) _) _ h₃ in
      let counted = reject_if-ok (bytes == 0 || ltb max_stream_segment_bytes bytes) _ n in
      let bounded = reject_if-ok (ltb max_transfer_bytes end) _ m in
      record {
        id = (validate_token_iff file_id _).0 t;
        some_bytes = ground (arith, counted);
        one_segment = ground (arith, counted);
        within_transfer = ground (arith, bounded, e);
        hash = (validate_blake3_iff blake3 _).0 b;
      },
  λ c. rw ((validate_token_iff file_id (text "file_id")).1 c.id) (
      ground (
        arith,
        c.some_bytes,
        c.one_segment,
        c.within_transfer,
        (validate_blake3_iff blake3 (text "blake3")).1 c.hash,
      )),
)

-- A segment commit is accepted exactly if it is addressed to this version with a token, names its
-- file by a token, announces 1 to 16 MiB that end within the largest transfer, and has a hash of 64
-- hexadecimal digits. Its segment index is not looked at.
pub segment_commit-IsCommit :
    (v : ProtocolVersion) (id file_id : Text) (segment_index offset bytes : ℕ) (blake3 : Text)
    → (validate_message (record {
      version = v;
      transfer_id = id;
      body = segment_commit file_id segment_index offset bytes blake3;
    })
        ≡ ok tt)
      ↔ (((v ≡ current_protocol) × IsToken id) × IsCommit file_id offset bytes blake3)
unfolding validate_body
segment_commit-IsCommit v id file_id segment_index offset bytes blake3 =
    let envelope = validate_message_iff (record {
      version = v;
      transfer_id = id;
      body = segment_commit file_id segment_index offset bytes blake3;
    }) in
    (
      λ h. (
        (envelope.0 h).0,
        (validate_segment_commit_iff file_id offset bytes blake3).0 (envelope.0 h).1,
      ),
      λ (e, o). envelope.1 (e, (validate_segment_commit_iff file_id offset bytes blake3).1 o),
    )

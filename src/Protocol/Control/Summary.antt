-- ===== src/Protocol/Control/Summary.antt =====
-- Which summaries of a streamed transfer are accepted, described without the validators.
use p2p_transmission.Prelude.{
  ℕ, ◌≤◌, ◌<◌, ◌≡◌, ◌↔◌, not, ◌==◌, ◌||◌, ltb, List, All, length, arith, ok, reject_if, >>=-eq-ok,
}
use p2p_transmission.Prelude.Text.{Text, text}
use p2p_transmission.Protocol.Limits.{max_transfer_bytes, max_files_per_manifest, validate_token}
use p2p_transmission.Protocol.Version.{ProtocolVersion, current_protocol}
use p2p_transmission.Protocol.Control.{
  FileDigest, stream_complete, no_files, validate_digest, validate_unique_files,
  validate_stream_complete, validate_body, validate_message,
}
use p2p_transmission.Protocol.Control.Files.{
  reject_if-ok, validate_unique_files_iff, total_size, IsDistinct,
}
use p2p_transmission.Protocol.Control.Fields.{
  IsToken, IsBlake3, validate_token_iff, validate_blake3_iff,
}
use p2p_transmission.Protocol.Control.Accepted.{All-iff, validate_message_iff}

pub record IsDigest (digest : FileDigest) : Type 0 where
  pub id : IsToken digest.file_id
  pub fits : digest.size_bytes ≤ max_transfer_bytes
  pub hash : IsBlake3 digest.blake3

validate_digest_iff : (digest : FileDigest) → (validate_digest digest ≡ ok tt) ↔ IsDigest digest
unfolding validate_digest
validate_digest_iff digest = (
  λ h.
      let (_, t, h₁) = >>=-eq-ok (validate_token digest.file_id _) _ h in
      let (_, s, b) = >>=-eq-ok (reject_if (ltb max_transfer_bytes digest.size_bytes) _) _ h₁ in
      let bounded = reject_if-ok (ltb max_transfer_bytes digest.size_bytes) _ s in
      record {
        id = (validate_token_iff digest.file_id _).0 t;
        fits = ground (arith, bounded);
        hash = (validate_blake3_iff digest.blake3 _).0 b;
      },
  λ d.
      rw ((validate_token_iff digest.file_id (text "file_id")).1 d.id)
        (ground (arith, d.fits, (validate_blake3_iff digest.blake3 (text "blake3")).1 d.hash)),
)

abbrev digest_id : FileDigest → Text
digest_id digest = digest.file_id

abbrev digest_size : FileDigest → ℕ
digest_size digest = digest.size_bytes

-- 1 to 10 valid digests with distinct ids, whose sizes add up to the announced total.
pub record IsSummary (total_bytes : ℕ) (files : List FileDigest) : Type 0 where
  pub some_files : 0 < length files
  pub few_files : length files ≤ max_files_per_manifest
  pub each_digest : All IsDigest files
  pub distinct : IsDistinct digest_id files
  pub sum : total_size digest_size files ≡ total_bytes
  pub within_transfer : total_bytes ≤ max_transfer_bytes

validate_stream_complete_iff :
    (total_bytes : ℕ) (files : List FileDigest)
    → (validate_stream_complete total_bytes files ≡ ok tt) ↔ IsSummary total_bytes files
unfolding validate_stream_complete
validate_stream_complete_iff total_bytes files = (
  λ h.
      let (_, n, h₁) = >>=-eq-ok (reject_if (no_files files) _) _ h in
      let (actual, u, h₂) =
        >>=-eq-ok (validate_unique_files files digest_id digest_size validate_digest) _ h₁ in
      let (few, a) =
        (validate_unique_files_iff digest_id digest_size validate_digest actual files).0 u in
      let counted = reject_if-ok (no_files files) _ n in
      let announced =
        reject_if-ok (not (actual == total_bytes) || ltb max_transfer_bytes total_bytes) _ h₂ in
      record {
        some_files = ground (arith, counted);
        few_files = few;
        each_digest = (All-iff validate_digest_iff files).0 a.each_valid;
        distinct = a.distinct;
        sum = ground (arith, a.sum, announced);
        within_transfer = ground (arith, announced);
      },
  λ s.
      let files_sum =
        (validate_unique_files_iff digest_id digest_size validate_digest total_bytes files).1 (
          s.few_files,
          record {
            each_valid = (All-iff validate_digest_iff files).1 s.each_digest;
            distinct = s.distinct;
            sum = s.sum;
            fits = omega (arith, s.within_transfer);
          },
        ) in
      ground (arith, s.some_files, s.within_transfer, files_sum),
)

-- The summary of a streamed transfer is accepted exactly if it is addressed to this version with a
-- token and lists 1 to 10 valid digests with distinct ids, whose sizes add up to the announced total,
-- which is within the largest transfer.
pub stream_complete-IsSummary :
    (v : ProtocolVersion) (id : Text) (total_bytes : ℕ) (files : List FileDigest)
    → (validate_message
          (record { version = v; transfer_id = id; body = stream_complete total_bytes files })
        ≡ ok tt)
      ↔ (((v ≡ current_protocol) × IsToken id) × IsSummary total_bytes files)
unfolding validate_body
stream_complete-IsSummary v id total_bytes files =
    let envelope =
      validate_message_iff
        (record { version = v; transfer_id = id; body = stream_complete total_bytes files }) in
    (
      λ h. ((envelope.0 h).0, (validate_stream_complete_iff total_bytes files).0 (envelope.0 h).1),
      λ (e, s). envelope.1 (e, (validate_stream_complete_iff total_bytes files).1 s),
    )

-- ===== src/Rtc/Checkpoint/Resume.antt =====
-- Which resumes of a manifest are accepted, and with what.
use p2p_transmission.Prelude.{
  ℕ, suc, ◌+◌, ◌≡◌, refl, ap, sym, ◌∙◌, subst, ◌↔◌, false, not, List, [], ◌∷◌, map, length, none,
  arith, ok, reject_if, >>=-eq-ok, ok-injective,
}
use p2p_transmission.OrdMap.Order.{text_order, same, same_iff}
use p2p_transmission.Protocol.Control.{ResumeCursor}
use p2p_transmission.Rtc.Checkpoint.{
  ManifestFile, ResolvedCheckpoint, resolve_files, checkpoints_of, wrong_count,
  validate_checkpoint_prefix, resolve_manifest_resume,
}
use p2p_transmission.Rtc.Checkpoint.Prefix.{IsPrefix, validate_checkpoint_prefix-IsPrefix}

-- Without cursors every file starts anew.
abbrev pub from_start : ManifestFile → ResolvedCheckpoint
from_start file = record { committed_bytes = 0; last_segment_blake3 = none }

abbrev pub from_cursor : ResumeCursor → ResolvedCheckpoint
from_cursor cursor = record {
  committed_bytes = cursor.committed_bytes;
  last_segment_blake3 = cursor.last_segment_blake3;
}

-- No cursors, or one for each file in the order of the manifest.
abbrev pub IsResolved : List ManifestFile → List ResumeCursor → List ResolvedCheckpoint → Type 0
IsResolved files [] resolved = resolved ≡ map from_start files
IsResolved files (cursor ∷ rest) resolved =
    (map (λ (c : ResumeCursor). c.file_id) (cursor ∷ rest)
      ≡ map (λ (f : ManifestFile). f.file_id) files)
    × (resolved ≡ map from_cursor (cursor ∷ rest))

suc_next : (i : ℕ) → suc i + 1 ≡ suc (i + 1)
suc_next i = omega arith

resolve_files-suc :
    (i : ℕ) (files : List ManifestFile) (c : ResumeCursor) (cs : List ResumeCursor)
    → resolve_files (suc i) files (c ∷ cs) ≡ resolve_files i files cs
unfolding resolve_files
resolve_files-suc i [] c cs = refl
resolve_files-suc i (file ∷ rest) c cs = rw (suc_next i, resolve_files-suc (i + 1) rest c cs) refl

resolve_files-nil :
    (i : ℕ) (files : List ManifestFile) → resolve_files i files [] ≡ ok (map from_start files)
unfolding resolve_files
resolve_files-nil i [] = refl
resolve_files-nil i (file ∷ rest) = rw (resolve_files-nil (i + 1) rest) refl

-- One cursor for each file.
resolve_files_iff :
    (files : List ManifestFile) (cs : List ResumeCursor) (resolved : List ResolvedCheckpoint)
    → length cs ≡ length files
    → (resolve_files 0 files cs ≡ ok resolved) ↔ (
        (map (λ (c : ResumeCursor). c.file_id) cs ≡ map (λ (f : ManifestFile). f.file_id) files)
        × (resolved ≡ map from_cursor cs))
unfolding resolve_files
resolve_files_iff [] [] resolved n = (λ h. (refl, cc), λ h. cc)
resolve_files_iff [] (c ∷ cs) resolved n = absurd (omega arith)
resolve_files_iff (f ∷ fs) [] resolved n = absurd (omega arith)
resolve_files_iff (f ∷ fs) (c ∷ cs) resolved n = (
  λ h.
      let (_, s, h₁) = >>=-eq-ok (reject_if (not (same c.file_id f.file_id)) _) _ h in
      let (tail, t, h₂) = >>=-eq-ok (resolve_files 1 fs (c ∷ cs)) _ h₁ in
      let (ids, rs) =
        (resolve_files_iff fs cs tail (omega arith)).0 (sym (resolve_files-suc 0 fs c cs) ∙ t) in
      let e : c.file_id ≡ f.file_id = (same_iff c.file_id f.file_id).0 (ground arith) in (cc, cc),
  λ (ids, rs).
      let e : c.file_id ≡ f.file_id = cc in
      let tail = (resolve_files_iff fs cs (map from_cursor cs) (omega arith)).1 (cc, refl) in
      rw ((same_iff c.file_id f.file_id).1 e, resolve_files-suc 0 fs c cs, tail) (ap ok (sym rs)),
)

map-length :
    {A B C : Type 0} (f : A → C) (g : B → C) (xs : List A) (ys : List B)
    → map f xs ≡ map g ys
    → length xs ≡ length ys
map-length f g [] [] e = refl
map-length f g [] (y ∷ ys) e = cc
map-length f g (x ∷ xs) [] e = cc
map-length f g (x ∷ xs) (y ∷ ys) e = ap suc (map-length f g xs ys cc)

counted_iff :
    (files : List ManifestFile) (cs : List ResumeCursor) (resolved : List ResolvedCheckpoint)
    → ((wrong_count cs (length files) ≡ false) × (resolve_files 0 files cs ≡ ok resolved))
      ↔ IsResolved files cs resolved
counted_iff files [] resolved = (
  λ (n, h). ok-injective (sym h ∙ resolve_files-nil 0 files),
  λ e. (refl, resolve_files-nil 0 files ∙ ap ok (sym e)),
)
counted_iff files (c ∷ cs) resolved = (
  λ (n, h). (resolve_files_iff files (c ∷ cs) resolved (ground arith)).0 h,
  λ r.
      let n =
        map-length (λ (c : ResumeCursor). c.file_id) (λ (f : ManifestFile). f.file_id) (c ∷ cs)
          files r.0 in
      (ground (arith, n), (resolve_files_iff files (c ∷ cs) resolved n).1 r),
)

-- A resume of a manifest is accepted exactly if there are no cursors, and every file starts anew, or
-- one cursor for each file in the order of the manifest, and what they say is a prefix of the
-- batch; the result is what they say.
pub resolve_manifest_resume-IsResolved :
    (segment_bytes : ℕ) (files : List ManifestFile) (resume : List ResumeCursor)
    (resolved : List ResolvedCheckpoint)
    → (resolve_manifest_resume segment_bytes files resume ≡ ok resolved)
      ↔ (IsResolved files resume resolved × IsPrefix segment_bytes (checkpoints_of files resolved))
unfolding resolve_manifest_resume
resolve_manifest_resume-IsResolved segment_bytes files resume resolved = (
  λ h.
      let (_, n, h₁) = >>=-eq-ok (reject_if (wrong_count resume (length files)) _) _ h in
      let (found, f, h₂) = >>=-eq-ok (resolve_files 0 files resume) _ h₁ in
      let (_, p, h₃) =
        >>=-eq-ok (validate_checkpoint_prefix segment_bytes (checkpoints_of files found)) _ h₂ in
      let e : found ≡ resolved = ok-injective h₃ in
      subst
        (λ (x : List ResolvedCheckpoint).
          IsResolved files resume x × IsPrefix segment_bytes (checkpoints_of files x))
        e
        (
          (counted_iff files resume found).0 (ground arith, f),
          (validate_checkpoint_prefix-IsPrefix segment_bytes _).0 p,
        ),
  λ (r, p).
      let (n, f) = (counted_iff files resume resolved).1 r in
      rw
        (
          n,
          f,
          (validate_checkpoint_prefix-IsPrefix segment_bytes (checkpoints_of files resolved)).1 p,
        )
        refl,
)

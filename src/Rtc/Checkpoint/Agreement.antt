-- ===== src/Rtc/Checkpoint/Agreement.antt =====
-- What an accepted live resume says of the checkpoints on both sides.
use p2p_transmission.Prelude.{
  ℕ, ◌≡◌, refl, sym, ◌⊎◌, inl, inr, List, [], ◌∷◌, length, Option, none, some, arith, ok, reject_if,
  ok_or, >>=-eq-ok, ok-injective, subst, Bool-cases,
}
use p2p_transmission.Prelude.Text.{Text}
use p2p_transmission.OrdMap.Order.{text_order, same, same_iff}
use p2p_transmission.Protocol.Control.{ResumeCursor}
use p2p_transmission.Rtc.Checkpoint.{
  Checkpoint, PendingCheckpoint, ResolvedCheckpoint, ResumeDisposition, keep_current,
  promote_pending, state_mismatch, wrong_count, resolved_from, validate_checkpoint_prefix,
}
use p2p_transmission.Rtc.Checkpoint.Prefix.{IsPrefix, validate_checkpoint_prefix-IsPrefix}
use p2p_transmission.Rtc.Checkpoint.Live.{
  find_cursor, resolve_file, resolve_current, received_of, match_files, disposition_of,
  match_live_resume,
}
use p2p_transmission.Rtc.Checkpoint.Matching.{
  SameBytes, DiffersAt, IsOutcome, match_files-IsOutcome,
}

abbrev pub IsListed : ResumeCursor → List ResumeCursor → Type 0
IsListed c [] = ⊥
IsListed c (d ∷ rest) = (c ≡ d) ⊎ IsListed c rest

-- What the cursors report of a file: nothing committed if there are none, and else what a cursor with
-- the file's id says.
abbrev pub IsReported : List ResumeCursor → Checkpoint → ResolvedCheckpoint → Type 0
IsReported resume file r =
    ((resume ≡ []) × (r ≡ resolved_from none))
    ⊎ ((c : ResumeCursor) × IsListed c resume
        × (c.file_id ≡ file.file_id)
        × (r ≡ resolved_from (some c)))

abbrev pub AreReported : List ResumeCursor → List Checkpoint → List ResolvedCheckpoint → Type 0
AreReported resume [] [] = Unit
AreReported resume (file ∷ rest) (r ∷ resolved) =
    IsReported resume file r × AreReported resume rest resolved
AreReported resume _ _ = ⊥

-- Current checkpoints are kept only if the peer reports the same bytes of every file; a pending one is
-- promoted only if it is the one difference.
abbrev pub IsDisposition :
    Option PendingCheckpoint
    → List Checkpoint
    → List ResolvedCheckpoint
    → ResumeDisposition
    → Type 0
IsDisposition pending current resolved keep_current = SameBytes current resolved
IsDisposition pending current resolved (promote_pending k) =
    (p : PendingCheckpoint) × (pending ≡ some p)
    × (p.file_index ≡ k)
    × DiffersAt p 0 current resolved

pub record IsAgreed (segment_bytes : ℕ) (current : List Checkpoint)
    (pending : Option PendingCheckpoint) (resume : List ResumeCursor) (d : ResumeDisposition)
    : Type 0 where
  pub resolved : List ResolvedCheckpoint
  pub reported : AreReported resume current resolved
  pub is_prefix : IsPrefix segment_bytes (received_of current resolved)
  pub disposition : IsDisposition pending current resolved d

find_cursor-IsListed :
    (file_id : Text) (resume : List ResumeCursor) (c : ResumeCursor)
    → find_cursor file_id resume ≡ some c
    → IsListed c resume × (c.file_id ≡ file_id)
unfolding find_cursor
find_cursor-IsListed file_id [] c h = cc
find_cursor-IsListed file_id (d ∷ rest) c h = elim (Bool-cases (same d.file_id file_id)) [
  | inl here ↦
      let found : d ≡ c = ground arith in
      (
        inl (sym found),
        subst (λ (x : ResumeCursor). x.file_id ≡ file_id) found
            ((same_iff d.file_id file_id).0 here),
      )
  | inr later ↦ let (l, i) = find_cursor-IsListed file_id rest c (ground arith) in (inr l, i)
]

resolve_file-IsReported :
    (resume : List ResumeCursor) (file : Checkpoint) (r : ResolvedCheckpoint)
    → resolve_file resume file ≡ ok r
    → IsReported resume file r
unfolding resolve_file
resolve_file-IsReported [] file r h = inl (refl, sym (ok-injective h))
resolve_file-IsReported (d ∷ rest) file r h =
    let (c, f, e) =
      >>=-eq-ok (ok_or (find_cursor file.file_id (d ∷ rest)) state_mismatch)
        (λ (c : ResumeCursor). ok (resolved_from (some c))) h in
    let (l, i) = find_cursor-IsListed file.file_id (d ∷ rest) c (was_some _ f) in
    inr (c, l, i, sym (ok-injective e))
  where
    was_some :
        (o : Option ResumeCursor) {c : ResumeCursor} → ok_or o state_mismatch ≡ ok c → o ≡ some c
    was_some none e = cc
    was_some (some c) e = cc

resolve_current-AreReported :
    (resume : List ResumeCursor) (current : List Checkpoint) (resolved : List ResolvedCheckpoint)
    → resolve_current resume current ≡ ok resolved
    → AreReported resume current resolved × (length current ≡ length resolved)
unfolding resolve_current
resolve_current-AreReported resume [] [] h = (tt, refl)
resolve_current-AreReported resume [] (r ∷ rs) h = cc
resolve_current-AreReported resume (file ∷ rest) resolved h =
    let (r, e, h₁) = >>=-eq-ok (resolve_file resume file) _ h in
    let (rs, es, h₂) = >>=-eq-ok (resolve_current resume rest) _ h₁ in
    let (reported, n) = resolve_current-AreReported resume rest rs es in
    subst
      (λ (x : List ResolvedCheckpoint).
        AreReported resume (file ∷ rest) x × (length (file ∷ rest) ≡ length x))
      (ok-injective h₂) ((resolve_file-IsReported resume file r e, reported), omega (arith, n))

IsOutcome-IsDisposition :
    (pending : Option PendingCheckpoint) (current : List Checkpoint)
    (resolved : List ResolvedCheckpoint) (final : Option ℕ)
    → IsOutcome pending 0 current resolved final
    → IsDisposition pending current resolved (disposition_of final)
IsOutcome-IsDisposition pending current resolved none o = o
IsOutcome-IsDisposition pending current resolved (some k) o = o

-- An accepted live resume agrees with the receiver: what the cursors report of its files is a prefix,
-- and has the committed bytes of the current checkpoints, except, where the answer promotes the
-- pending checkpoint, in the file of that checkpoint, of which it is reported.
pub match_live_resume-IsAgreed :
    (segment_bytes : ℕ) (current : List Checkpoint) (pending : Option PendingCheckpoint)
    (resume : List ResumeCursor) (d : ResumeDisposition)
    → match_live_resume segment_bytes current pending resume ≡ ok d
    → IsAgreed segment_bytes current pending resume d
unfolding match_live_resume
match_live_resume-IsAgreed segment_bytes current pending resume d h =
    let (_, n, h₁) = >>=-eq-ok (reject_if (wrong_count resume (length current)) _) _ h in
    let (resolved, e, h₂) = >>=-eq-ok (resolve_current resume current) _ h₁ in
    let (_, p, h₃) =
      >>=-eq-ok (validate_checkpoint_prefix segment_bytes (received_of current resolved)) _ h₂ in
    let (final, m, h₄) = >>=-eq-ok (match_files pending 0 none current resolved) _ h₃ in
    let (reported, same_length) = resolve_current-AreReported resume current resolved e in
    record {
      resolved = resolved;
      reported = reported;
      is_prefix = (validate_checkpoint_prefix-IsPrefix segment_bytes _).0 p;
      disposition = subst (IsDisposition pending current resolved) (ok-injective h₄) (
          IsOutcome-IsDisposition pending current resolved final
            (match_files-IsOutcome pending 0 current resolved final same_length m));
    }

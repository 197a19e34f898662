-- ===== src/Rtc/Checkpoint/Matching.antt =====
-- The loop of `match_live_resume`: when it accepts, which files differ and how.
use p2p_transmission.Prelude.{
  ℕ, ◌+◌, ◌≤◌, ◌<◌, ◌≡◌, refl, sym, subst, ◌≢◌, ◌⊎◌, inl, inr, Bool, true, false, not, ◌&&◌,
  if◌then◌else◌, List, [], ◌∷◌, length, Option, none, some, arith, ok, reject_if, >>=-eq-ok,
  ok-injective, Bool-cases,
}
use p2p_transmission.Prelude.Text.{Text}
use p2p_transmission.OrdMap.Order.{text_order, same_iff}
use p2p_transmission.Rtc.Checkpoint.{
  Checkpoint, PendingCheckpoint, ResolvedCheckpoint, state_mismatch,
}
use p2p_transmission.Rtc.Checkpoint.Live.{
  same_hash, current_matches, pending_matches, is_some, promotes, match_files,
}

-- The files of both sides have the same committed bytes.
abbrev pub SameBytes : List Checkpoint → List ResolvedCheckpoint → Type 0
SameBytes [] resolved = Unit
SameBytes (file ∷ rest) [] = ⊥
SameBytes (file ∷ rest) (received ∷ resolved) =
    (received.committed_bytes ≡ file.committed_bytes) × SameBytes rest resolved

-- They differ in the file of the pending checkpoint only, for which the cursor says that checkpoint.
abbrev pub DiffersAt : PendingCheckpoint → ℕ → List Checkpoint → List ResolvedCheckpoint → Type 0
DiffersAt p i [] resolved = ⊥
DiffersAt p i (file ∷ rest) [] = ⊥
DiffersAt p i (file ∷ rest) (received ∷ resolved) =
    ((p.file_index ≡ i)
      × (received.committed_bytes ≡ p.committed_bytes)
      × (received.last_segment_blake3 ≡ some p.blake3)
      × (p.committed_bytes ≢ file.committed_bytes)
      × SameBytes rest resolved)
    ⊎ ((p.file_index ≢ i)
        × (received.committed_bytes ≡ file.committed_bytes)
        × DiffersAt p (i + 1) rest resolved)

passed : (b : Bool) → reject_if b state_mismatch ≡ ok tt → b ≡ false
passed b h = ground arith

-- The bytes of a file that passes the tests and is not promoted.
unpromoted-bytes :
    (pending : Option PendingCheckpoint) (i : ℕ) (c : Checkpoint) (r : ResolvedCheckpoint)
    → reject_if (not (current_matches c r) && not (pending_matches pending i r)) state_mismatch
      ≡ ok tt
    → promotes pending i c r ≡ false
    → r.committed_bytes ≡ c.committed_bytes
unpromoted-bytes pending i c r m h = ground arith

-- A file that is promoted.
promoted-pending :
    (pending : Option PendingCheckpoint) (i : ℕ) (c : Checkpoint) (r : ResolvedCheckpoint)
    → promotes pending i c r ≡ true
    → (p : PendingCheckpoint) × (pending ≡ some p)
      × (p.file_index ≡ i)
      × (r.committed_bytes ≡ p.committed_bytes)
      × (r.last_segment_blake3 ≡ some p.blake3)
      × (p.committed_bytes ≢ c.committed_bytes)
promoted-pending none i c r h = cc
promoted-pending (some p) i c r h = (
  p,
  refl,
  ground arith,
  ground arith,
  hash r.last_segment_blake3 (ground arith),
  λ e. ground arith,
)
  where
    hash : (o : Option Text) → same_hash (some p.blake3) o ≡ true → o ≡ some p.blake3
    hash none e = cc
    hash (some b) e = ground (arith, same_iff p.blake3 b)

-- One file of the loop.
match_files-cons :
    (pending : Option PendingCheckpoint) (i : ℕ) (promotion : Option ℕ) (c : Checkpoint)
    (cs : List Checkpoint) (r : ResolvedCheckpoint) (rs : List ResolvedCheckpoint)
    (final : Option ℕ)
    → match_files pending i promotion (c ∷ cs) (r ∷ rs) ≡ ok final
    → (reject_if (not (current_matches c r) && not (pending_matches pending i r)) state_mismatch
        ≡ ok tt)
      × (match_files pending (i + 1) (if promotes pending i c r then some i else promotion) cs rs
          ≡ ok final)
unfolding match_files
match_files-cons pending i promotion c cs r rs final h =
    let (_, m, h₁) =
      >>=-eq-ok (reject_if (not (current_matches c r) && not (pending_matches pending i r)) _) _
        h in
    let (_, _, h₂) = >>=-eq-ok (reject_if (promotes pending i c r && is_some promotion) _) _ h₁ in
    (m, h₂)

-- The loop goes on with the promotion that the test gives.
with_promotion :
    (pending : Option PendingCheckpoint) (i j : ℕ) (b : Bool) (promotion : Option ℕ)
    (cs : List Checkpoint) (rs : List ResolvedCheckpoint) (final : Option ℕ) {b' : Bool}
    → b ≡ b'
    → match_files pending j (if b then some i else promotion) cs rs ≡ ok final
    → match_files pending j (if b' then some i else promotion) cs rs ≡ ok final
with_promotion pending i j b promotion cs rs final e h =
    subst (λ (x : Bool). match_files pending j (if x then some i else promotion) cs rs ≡ ok final) e
      h

-- After a promotion at an earlier file, no file is promoted.
match_files-past :
    (p : PendingCheckpoint) (i k : ℕ) (cs : List Checkpoint) (rs : List ResolvedCheckpoint)
    (final : Option ℕ)
    → p.file_index < i
    → length cs ≡ length rs
    → match_files (some p) i (some k) cs rs ≡ ok final
    → (final ≡ some k) × SameBytes cs rs
unfolding match_files
match_files-past p i k [] rs final l n h = (sym (ok-injective h), tt)
match_files-past p i k (c ∷ cs) [] final l n h = absurd (omega arith)
match_files-past p i k (c ∷ cs) (r ∷ rs) final l n h =
    let stays : promotes (some p) i c r ≡ false = ground arith in
    let (m, h₁) = match_files-cons (some p) i (some k) c cs r rs final h in
    let (f, s) =
      match_files-past p (i + 1) k cs rs final (omega arith) (omega arith)
        (with_promotion (some p) i (i + 1) _ (some k) cs rs final stays h₁) in
    (f, (unpromoted-bytes (some p) i c r m stays, s))

DiffersAt-le :
    (p : PendingCheckpoint) (i : ℕ) (cs : List Checkpoint) (rs : List ResolvedCheckpoint)
    → DiffersAt p i cs rs
    → i ≤ p.file_index
DiffersAt-le p i [] rs d = absurd d
DiffersAt-le p i (c ∷ cs) [] d = absurd d
DiffersAt-le p i (c ∷ cs) (r ∷ rs) (inl (e, _, _, _, _)) = omega arith
DiffersAt-le p i (c ∷ cs) (r ∷ rs) (inr (_, _, d)) = omega (arith, DiffersAt-le p (i + 1) cs rs d)

-- What the promotion that the loop found says.
abbrev pub IsOutcome :
    Option PendingCheckpoint → ℕ → List Checkpoint → List ResolvedCheckpoint → Option ℕ → Type 0
IsOutcome pending i cs rs none = SameBytes cs rs
IsOutcome pending i cs rs (some k) =
    (p : PendingCheckpoint) × (pending ≡ some p) × (p.file_index ≡ k) × DiffersAt p i cs rs

later-IsOutcome :
    (pending : Option PendingCheckpoint) (i : ℕ) (c : Checkpoint) (cs : List Checkpoint)
    (r : ResolvedCheckpoint) (rs : List ResolvedCheckpoint) (final : Option ℕ)
    → r.committed_bytes ≡ c.committed_bytes
    → IsOutcome pending (i + 1) cs rs final
    → IsOutcome pending i (c ∷ cs) (r ∷ rs) final
later-IsOutcome pending i c cs r rs none e s = (e, s)
later-IsOutcome pending i c cs r rs (some k) e (p, h, f, d) =
    (p, h, f, inr ((λ x. absurd (omega (arith, DiffersAt-le p (i + 1) cs rs d))), e, d))

pub match_files-IsOutcome :
    (pending : Option PendingCheckpoint) (i : ℕ) (cs : List Checkpoint)
    (rs : List ResolvedCheckpoint) (final : Option ℕ)
    → length cs ≡ length rs
    → match_files pending i none cs rs ≡ ok final
    → IsOutcome pending i cs rs final
unfolding match_files
match_files-IsOutcome pending i [] rs final n h =
    subst (IsOutcome pending i [] rs) (ok-injective h) tt
match_files-IsOutcome pending i (c ∷ cs) [] final n h = absurd (omega arith)
match_files-IsOutcome pending i (c ∷ cs) (r ∷ rs) final n h =
    let (m, h₁) = match_files-cons pending i none c cs r rs final h in
    elim (Bool-cases (promotes pending i c r)) [
      | inl here ↦
          let (p, known, e, b, d, ne) = promoted-pending pending i c r here in
          let h₂ = with_promotion pending i (i + 1) _ none cs rs final here h₁ in
          let (f, s) = match_files-past p (i + 1) i cs rs final (omega arith) (omega arith) (
            subst
              (λ (x : Option PendingCheckpoint). match_files x (i + 1) (some i) cs rs ≡ ok final)
              known h₂) in
          subst (IsOutcome pending i (c ∷ cs) (r ∷ rs)) (sym f) (p, known, e, inl (e, b, d, ne, s))
      | inr stays ↦
          later-IsOutcome pending i c cs r rs final (unpromoted-bytes pending i c r m stays) (
            match_files-IsOutcome pending (i + 1) cs rs final (omega arith)
              (with_promotion pending i (i + 1) _ none cs rs final stays h₁))
    ]

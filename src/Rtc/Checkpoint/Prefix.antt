-- ===== src/Rtc/Checkpoint/Prefix.antt =====
-- Which checkpoints `validate_checkpoint_prefix` accepts, described without its loop.
use p2p_transmission.Prelude.{
  ℕ, ◌%◌, ◌≤◌, ◌<◌, ◌≡◌, refl, ◌↔◌, ◌⊎◌, inl, inr, Bool, true, false, not, ◌==◌, ◌&&◌, ◌||◌, ltb,
  List, [], ◌∷◌, All, Option, none, some, arith, ok, reject_if, >>=-eq-ok, Bool-cases,
}
use p2p_transmission.Prelude.Text.{Text, is_ascii_hexdigit}
use p2p_transmission.Protocol.Control.Fields.{IsBlake3, all_iff}
use p2p_transmission.Rtc.Checkpoint.{
  Checkpoint, valid_blake3, is_none, is_some_valid, is_aligned, is_verified, check_files,
  validate_checkpoint_prefix, invalid_checkpoint,
}

-- The committed bytes of a file end at a segment or at its end, and a hash of its last segment is
-- known exactly if there are any.
abbrev pub IsHashOf : ℕ → Option Text → Type 0
IsHashOf committed none = committed ≡ 0
IsHashOf committed (some hash) = (0 < committed) × IsBlake3 hash

pub record IsCheckpoint (segment_bytes : ℕ) (file : Checkpoint) : Type 0 where
  pub within : file.committed_bytes ≤ file.size_bytes
  pub boundary :
      (file.committed_bytes ≡ file.size_bytes) ⊎ (file.committed_bytes % segment_bytes ≡ 0)
  pub hash : IsHashOf file.committed_bytes file.last_segment_blake3

abbrev pub IsUntouched : Checkpoint → Type 0
IsUntouched file = file.committed_bytes ≡ 0

-- Nothing is committed behind a file that is not complete.
abbrev pub InOrder : List Checkpoint → Type 0
InOrder [] = Unit
InOrder (file ∷ rest) =
    (file.committed_bytes < file.size_bytes → All IsUntouched rest) × InOrder rest

valid_blake3_iff : (hash : Text) → (valid_blake3 hash ≡ true) ↔ IsBlake3 hash
valid_blake3_iff hash = (
  λ h. (ground arith, (all_iff is_ascii_hexdigit hash).0 (ground arith)),
  λ (n, a). ground (arith, (all_iff is_ascii_hexdigit hash).1 a),
)

hash_iff :
    (committed : ℕ) (hash : Option Text)
    → (((committed == 0 && is_none hash) || (ltb 0 committed && is_some_valid hash)) ≡ true)
      ↔ IsHashOf committed hash
hash_iff committed none = (λ h. ground arith, λ h. ground arith)
hash_iff committed (some hash) = (
  λ h. (ground arith, (valid_blake3_iff hash).0 (ground arith)),
  λ (n, b). ground (arith, (valid_blake3_iff hash).1 b),
)

aligned_iff :
    (segment_bytes : ℕ) (file : Checkpoint)
    → (is_aligned segment_bytes file ≡ true) ↔ (
        (file.committed_bytes ≤ file.size_bytes)
        × ((file.committed_bytes ≡ file.size_bytes) ⊎ (file.committed_bytes % segment_bytes ≡ 0)))
aligned_iff segment_bytes file = (
  λ h. (
    ground arith,
    elim (Bool-cases (file.committed_bytes == file.size_bytes)) [
      | inl e ↦ inl (ground arith)
      | inr e ↦ inr (ground arith)
    ],
  ),
  λ (w, b). elim b [ inl e ↦ ground arith | inr e ↦ ground arith ],
)

checkpoint_iff :
    (segment_bytes : ℕ) (file : Checkpoint)
    → ((is_aligned segment_bytes file ≡ true) × (is_verified file ≡ true))
      ↔ IsCheckpoint segment_bytes file
checkpoint_iff segment_bytes file = (
  λ (a, v).
      let (w, b) = (aligned_iff segment_bytes file).0 a in
      record {
        within = w;
        boundary = b;
        hash = (hash_iff file.committed_bytes file.last_segment_blake3).0 v;
      },
  λ c. (
    (aligned_iff segment_bytes file).1 (c.within, c.boundary),
    (hash_iff file.committed_bytes file.last_segment_blake3).1 c.hash,
  ),
)

check_iff :
    (a v s : Bool)
    → (reject_if (not a || not v || s) invalid_checkpoint ≡ ok tt)
      ↔ ((a ≡ true) × (v ≡ true) × (s ≡ false))
check_iff a v s = (λ h. (ground arith, ground arith, ground arith), λ (x, y, z). ground arith)

untouched_iff : (seen : Bool) (n : ℕ) → ((seen && ltb 0 n) ≡ false) ↔ (seen ≡ true → n ≡ 0)
untouched_iff true n = (λ h e. ground arith, λ h. ground (arith, h refl))
untouched_iff false n = (λ h e. cc, λ h. refl)

-- With a flag that is set, nothing more is committed.
check_files_iff :
    (segment_bytes : ℕ) (seen : Bool) (files : List Checkpoint)
    → (check_files segment_bytes seen files ≡ ok tt) ↔ (
        All (IsCheckpoint segment_bytes) files
        × (seen ≡ true → All IsUntouched files)
        × InOrder files)
unfolding check_files
check_files_iff segment_bytes seen [] = (λ h. (tt, λ s. tt, tt), λ h. refl)
check_files_iff segment_bytes seen (file ∷ rest) =
    let seen' = ltb file.committed_bytes file.size_bytes || seen in
    (
      λ h.
          let (_, c, h₁) = >>=-eq-ok (reject_if _ _) _ h in
          let (a, v, s) =
            (check_iff (is_aligned segment_bytes file) (is_verified file)
                (seen && ltb 0 file.committed_bytes)).0
              c in
          let (cs, us, os) = (check_files_iff segment_bytes seen' rest).0 h₁ in
          (
            ((checkpoint_iff segment_bytes file).0 (a, v), cs),
            (λ e. ((untouched_iff seen file.committed_bytes).0 s e, us (ground arith))),
            ((λ l. us (ground arith)), os),
          ),
      λ (cs, us, os).
          let (a, v) = (checkpoint_iff segment_bytes file).1 cs.0 in
          let s = (untouched_iff seen file.committed_bytes).1 (λ e. (us e).0) in
          rw
            ((check_iff (is_aligned segment_bytes file) (is_verified file)
                (seen && ltb 0 file.committed_bytes)).1
              (a, v, s))
            ((check_files_iff segment_bytes seen' rest).1 (
              cs.1,
              λ e. elim (Bool-cases seen) [ inl t ↦ (us t).1 | inr f ↦ os.0 (ground arith) ],
              os.1,
            )),
    )

-- What a prefix of committed bytes is.
pub record IsPrefix (segment_bytes : ℕ) (files : List Checkpoint) : Type 0 where
  pub some_bytes : 0 < segment_bytes
  pub each_file : All (IsCheckpoint segment_bytes) files
  pub in_order : InOrder files

-- `validate_checkpoint_prefix` accepts exactly the prefixes: segments have bytes, each file's
-- committed bytes end at a segment or at its end and have a known hash if there are any, and nothing
-- is committed behind a file that is not complete.
pub validate_checkpoint_prefix-IsPrefix :
    (segment_bytes : ℕ) (files : List Checkpoint)
    → (validate_checkpoint_prefix segment_bytes files ≡ ok tt) ↔ IsPrefix segment_bytes files
unfolding validate_checkpoint_prefix
validate_checkpoint_prefix-IsPrefix segment_bytes files = (
  λ h.
      let (_, z, h₁) = >>=-eq-ok (reject_if (segment_bytes == 0) _) _ h in
      let (cs, us, os) = (check_files_iff segment_bytes false files).0 h₁ in
      record { some_bytes = ground arith; each_file = cs; in_order = os },
  λ p. ground (
    arith,
    p.some_bytes,
    (check_files_iff segment_bytes false files).1 (p.each_file, λ e. cc, p.in_order),
  ),
)

-- ===== src/Protocol/Control/Files.antt =====
-- What the loop over the files of a message accepts, for any files and any check of one file.
use p2p_transmission.Prelude.{
  ℕ, ◌+◌, ◌≤◌, ◌≡◌, refl, ◌≢◌, ◌↔◌, Bool, false, ltb, List, [], ◌∷◌, All, length, some, arith, ok,
  reject_if, ok_or, >>=-eq-ok,
}
use p2p_transmission.Prelude.Text.{Text}
use p2p_transmission.Prelude.Words.{u64_max, checked_add}
use p2p_transmission.OrdMap.Map.{OrdMap, contains_key, insert, contains_key-insert}
use p2p_transmission.OrdMap.Order.{text_order, same_iff}
use p2p_transmission.Protocol.Limits.{
  ProtocolError, Checked, max_files_per_manifest, transfer_too_large,
}
use p2p_transmission.Protocol.Control.{add_files, validate_unique_files}

pub reject_if-ok : (b : Bool) (e : ProtocolError) → reject_if b e ≡ ok tt → b ≡ false
reject_if-ok b e h = ground arith

checked_add-ok :
    (a b s : ℕ) → ok_or (checked_add a b) transfer_too_large ≡ ok s → (a + b ≡ s) × (s ≤ u64_max)
checked_add-ok a b s h = ground arith

checked_add-fits : (a b : ℕ) → a + b ≤ u64_max → checked_add a b ≡ some (a + b)
checked_add-fits a b h = ground arith

abbrev pub total_size : {T : Type 0} → (T → ℕ) → List T → ℕ
total_size file_size [] = 0
total_size file_size (file ∷ rest) = file_size file + total_size file_size rest

module _ {T : Type 0} (file_id : T → Text) where
  abbrev pub IsFresh : OrdMap Text (Unit {0}) → T → Type 0
  IsFresh ids file = contains_key (file_id file) ids ≡ false

  -- No two files have the same id.
  abbrev pub IsDistinct : List T → Type 0
  IsDistinct [] = Unit
  IsDistinct (file ∷ rest) =
      All (λ (other : T). file_id file ≢ file_id other) rest × IsDistinct rest

  IsFresh-iff :
      (k : Text) (ids : OrdMap Text (Unit {0})) (files : List T)
      → All (IsFresh (insert k tt ids)) files
        ↔ (All (λ (other : T). k ≢ file_id other) files × All (IsFresh ids) files)
  IsFresh-iff k ids [] = (λ h. (tt, tt), λ h. tt)
  IsFresh-iff k ids (file ∷ rest) = (
    λ h.
        let (ne, fresh) = (IsFresh-iff k ids rest).0 h.1 in
        let now = contains_key-insert (file_id file) k tt ids in
        (
          (ground (arith, now, same_iff k (file_id file)), ne),
          (ground (arith, now, same_iff k (file_id file)), fresh),
        ),
    λ h. (
      ground (arith, contains_key-insert (file_id file) k tt ids, same_iff k (file_id file)),
      (IsFresh-iff k ids rest).1 (h.0.1, h.1.1),
    ),
  )

  All-IsFresh : (files : List T) → All (IsFresh []) files
  unfolding contains_key
  All-IsFresh [] = tt
  All-IsFresh (file ∷ rest) = (refl, All-IsFresh rest)

  module _ (file_size : T → ℕ) (validate : T → Checked) where
    abbrev pub IsChecked : T → Type 0
    IsChecked file = validate file ≡ ok tt

    -- Every file is valid, no id occurs twice, and the sizes add up without overflow.
    pub record AreFiles (files : List T) (total : ℕ) : Type 0 where
      pub each_valid : All IsChecked files
      pub distinct : IsDistinct files
      pub sum : total_size file_size files ≡ total
      pub fits : total ≤ u64_max

    add_files_iff :
        (ids : OrdMap Text (Unit {0})) (before total : ℕ) (files : List T)
        → before ≤ u64_max
        → (add_files file_id file_size validate ids before files ≡ ok total) ↔ (
            All IsChecked files
            × All (IsFresh ids) files
            × IsDistinct files
            × (before + total_size file_size files ≡ total)
            × (total ≤ u64_max))
    unfolding add_files
    add_files_iff ids before total [] b =
        (λ h. (tt, tt, tt, ground arith, ground arith), λ (_, _, _, s, _). ground arith)
    add_files_iff ids before total (file ∷ rest) b = (
      λ h.
          let (_, v, h₁) = >>=-eq-ok (validate file) _ h in
          let (_, f, h₂) = >>=-eq-ok (reject_if (contains_key (file_id file) ids) _) _ h₁ in
          let (sum, c, h₃) = >>=-eq-ok (ok_or (checked_add before (file_size file)) _) _ h₂ in
          let (s, fits) = checked_add-ok before (file_size file) sum c in
          let (vs, fs, ds, e, m) =
            (add_files_iff (insert (file_id file) tt ids) sum total rest fits).0 h₃ in
          let (ne, fresh) = (IsFresh-iff (file_id file) ids rest).0 fs in
          ((v, vs), (reject_if-ok _ _ f, fresh), (ne, ds), omega arith, m),
      λ (vs, fs, ds, e, m).
          let tail : total_size file_size rest + (before + file_size file) ≡ total = omega arith in
          rw (vs.0, fs.0, checked_add-fits before (file_size file) (omega arith))
            ((add_files_iff (insert (file_id file) tt ids) (before + file_size file) total rest
                (omega arith)).1
              (vs.1, (IsFresh-iff (file_id file) ids rest).1 (ds.0, fs.1), ds.1, omega arith, m)),
    )

    pub add_files-AreFiles :
        (total : ℕ) (files : List T)
        → (add_files file_id file_size validate [] 0 files ≡ ok total) ↔ AreFiles files total
    add_files-AreFiles total files = (
      λ h.
          let (vs, fs, ds, e, m) = (add_files_iff [] 0 total files (omega arith)).0 h in
          record { each_valid = vs; distinct = ds; sum = omega arith; fits = m },
      λ a.
          (add_files_iff [] 0 total files (omega arith)).1
            (a.each_valid, All-IsFresh files, a.distinct, omega (arith, a.sum), a.fits),
    )

    -- `validate_unique_files` returns `total` exactly for at most ten files of that total size.
    pub validate_unique_files_iff :
        (total : ℕ) (files : List T)
        → (validate_unique_files files file_id file_size validate ≡ ok total)
          ↔ ((length files ≤ max_files_per_manifest) × AreFiles files total)
    unfolding validate_unique_files
    validate_unique_files_iff total files = (
      λ h.
          let (_, n, h₁) =
            >>=-eq-ok (reject_if (ltb max_files_per_manifest (length files)) _) _ h in
          (ground (arith, reject_if-ok _ _ n), (add_files-AreFiles total files).0 h₁),
      λ (n, a). ground (arith, (add_files-AreFiles total files).1 a),
    )

-- ===== src/Rtc/Plans.antt =====
-- Which files `plan_transfer` of rust/crates/browser-platform/src/rtc/manifest.rs accepts, and its plan.
use p2p_transmission.Prelude.{
  ℕ, ◌+◌, ◌≤◌, ◌<◌, ◌≡◌, refl, sym, ap, ◌∙◌, subst, ◌↔◌, Bool, false, ◌==◌, ◌||◌, ltb, leb, ◌≢◌,
  inl, inr, Bool-cases, List, [], ◌∷◌, length, ok, reject_if, ok_or, ok-injective, >>=-eq-ok, arith,
}
use p2p_transmission.Prelude.Words.{u64_max, checked_add}
use p2p_transmission.Transfer.{TransferFile}
use p2p_transmission.Protocol.Limits.{
  max_files_per_manifest, max_buffered_transfer_bytes, max_transfer_bytes,
}
use p2p_transmission.Protocol.Control.{TransferMode, buffered, streamed}
use p2p_transmission.Protocol.Control.Files.{total_size}
use p2p_transmission.Rtc.Manifest.{
  TransferPlan, TransferPlanError, size_overflow, file_size, add_sizes, mode_for, plan_transfer,
}

reject_if-accepts : (b : Bool) (e : TransferPlanError) → reject_if b e ≡ ok tt → b ≡ false
reject_if-accepts b e h = ground arith

checked_add-sum :
    (a b s : ℕ) → ok_or (checked_add a b) size_overflow ≡ ok s → (a + b ≡ s) × (s ≤ u64_max)
checked_add-sum a b s h = ground arith

checked_add-fits : (a b : ℕ) → a + b ≤ u64_max → ok_or (checked_add a b) size_overflow ≡ ok (a + b)
checked_add-fits a b h = ground arith

add_sizes-sum :
    (before total : ℕ) (files : List TransferFile)
    → add_sizes before files ≡ ok total
    → total_size file_size files + before ≡ total
unfolding add_sizes
add_sizes-sum before total [] h = ground (arith, h)
add_sizes-sum before total (file ∷ rest) h =
    let (next, a, h₁) = >>=-eq-ok (ok_or (checked_add before file.size_bytes) size_overflow) _ h in
    let sum = (checked_add-sum before file.size_bytes next a).0 in
    let tail = add_sizes-sum next total rest h₁ in omega (arith, sum, tail)

add_sizes-fits :
    (before : ℕ) (files : List TransferFile)
    → total_size file_size files + before ≤ u64_max
    → add_sizes before files ≡ ok (total_size file_size files + before)
unfolding add_sizes
add_sizes-fits before [] h = grind arith
add_sizes-fits before (file ∷ rest) h =
    let tail : total_size file_size rest + (before + file.size_bytes) ≤ u64_max =
      omega (arith, h) in
    let sum : total_size file_size rest + (before + file.size_bytes)
        ≡ (file.size_bytes + total_size file_size rest) + before =
      omega arith in
    rw
      (
        checked_add-fits before file.size_bytes (omega (arith, h)),
        add_sizes-fits (before + file.size_bytes) rest tail,
        sum,
      )
      refl

-- The mode of so many files with so many bytes: buffered for one file of at most 100 MiB, and streamed in
-- segments of 8 MiB for several files or more bytes.
pub data IsModeOf (count total_bytes : ℕ) : TransferMode → Type 0 where
  one_small : count ≡ 1 → total_bytes ≤ 104_857_600 → IsModeOf count total_bytes buffered
  several : count ≢ 1 → IsModeOf count total_bytes (streamed 8_388_608)
  large : 104_857_600 < total_bytes → IsModeOf count total_bytes (streamed 8_388_608)

IsModeOf-mode_for :
    (count total_bytes : ℕ) (mode : TransferMode)
    → IsModeOf count total_bytes mode
    → mode ≡ mode_for count total_bytes
IsModeOf-mode_for count total_bytes buffered (one_small one small) = ground (arith, one, small)
IsModeOf-mode_for count total_bytes (streamed s) (several more) = ground (arith, more)
IsModeOf-mode_for count total_bytes (streamed s) (large over) = ground (arith, over)

mode_for-IsModeOf :
    (count total_bytes : ℕ) → IsModeOf count total_bytes (mode_for count total_bytes)
mode_for-IsModeOf count total_bytes = elim (Bool-cases (count == 1)) [
  | inl one ↦ elim (Bool-cases (leb total_bytes max_buffered_transfer_bytes)) [
    | inl small ↦ rw (one, small) (one_small (ground arith) (ground arith))
    | inr over ↦ rw (one, over) (large (ground arith))
  ]
  | inr more ↦ rw more (several (ground arith))
]

-- 1 to 10 files whose sizes add up to the planned total, within the largest transfer, in its mode.
pub record IsPlan (files : List TransferFile) (plan : TransferPlan) : Type 0 where
  pub some_files : 0 < length files
  pub few_files : length files ≤ max_files_per_manifest
  pub sum : total_size file_size files ≡ plan.total_bytes
  pub within : plan.total_bytes ≤ max_transfer_bytes
  pub mode : IsModeOf (length files) plan.total_bytes plan.mode

abbrev made : List TransferFile → TransferPlan
made files = record {
  total_bytes = total_size file_size files;
  mode = mode_for (length files) (total_size file_size files);
}

made-plan :
    (files : List TransferFile) (plan : TransferPlan) → IsPlan files plan → made files ≡ plan
made-plan files plan p = λ i. record {
  total_bytes = p.sum i;
  mode =
      (ap (mode_for (length files)) p.sum
          ∙ sym (IsModeOf-mode_for (length files) plan.total_bytes plan.mode p.mode))
        i;
}

add_sizes-all :
    (files : List TransferFile)
    → total_size file_size files ≤ u64_max
    → add_sizes 0 files ≡ ok (total_size file_size files)
add_sizes-all files h =
    let start : total_size file_size files + 0 ≡ total_size file_size files = omega arith in
    add_sizes-fits 0 files (omega (arith, h)) ∙ ap ok start

plan_transfer-made :
    (files : List TransferFile)
    → 0 < length files
    → length files ≤ max_files_per_manifest
    → total_size file_size files ≤ max_transfer_bytes
    → plan_transfer files ≡ ok (made files)
unfolding plan_transfer
plan_transfer-made files some_files few_files within =
    let sizes = add_sizes-all files (omega (arith, within)) in
    rw sizes (ground (arith, some_files, few_files, within))

-- A plan of files is one that `plan_transfer` returns exactly if there are 1 to 10 files, their sizes add
-- up to its total, which is within the largest transfer, and its mode is buffered for a single file of at
-- most 100 MiB and otherwise streamed in segments of 8 MiB.
pub plan_transfer-IsPlan :
    (files : List TransferFile) (plan : TransferPlan)
    → (plan_transfer files ≡ ok plan) ↔ IsPlan files plan
unfolding plan_transfer
plan_transfer-IsPlan files plan = (
  λ h.
      let (_, n, h₁) =
        >>=-eq-ok (reject_if (length files == 0 || ltb max_files_per_manifest (length files)) _) _
          h in
      let (total, a, h₂) = >>=-eq-ok (add_sizes 0 files) _ h₁ in
      let (_, f, h₃) = >>=-eq-ok (reject_if (ltb max_transfer_bytes total) _) _ h₂ in
      let counted = reject_if-accepts _ _ n in
      let bounded = reject_if-accepts _ _ f in
      let sum = add_sizes-sum 0 total files a in
      subst (IsPlan files) (ok-injective h₃) (record {
        some_files = ground (arith, counted);
        few_files = ground (arith, counted);
        sum = omega (arith, sum);
        within = ground (arith, bounded);
        mode = mode_for-IsModeOf (length files) total;
      }),
  λ p.
      plan_transfer-made files p.some_files p.few_files
        (subst (λ t. t ≤ max_transfer_bytes) (sym p.sum) p.within)
      ∙ ap ok (made-plan files plan p),
)

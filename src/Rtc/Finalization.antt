-- ===== src/Rtc/Finalization.antt =====
-- rust/crates/browser-platform/src/rtc/finalization.rs: what follows the signal that a streamed transfer is
-- complete, and the loop of browser/incoming.rs that removes its recovery record. The answers of the
-- browser's storage are a parameter.
use p2p_transmission.Prelude.{
  ℕ, zero, suc, ◌+◌, min, ◌≡◌, refl, Option, none, some, List, [], ◌∷◌, Result, ok, err,
}

pub data CompletionSignalOutcome : Type 0 where
  enqueued reconnectable_failure fatal_failure : CompletionSignalOutcome

pub data CompletionAction : Type 0 where
  attempt_recovery_cleanup_and_complete preserve_recovery_and_reconnect : CompletionAction
  preserve_recovery_and_fail : CompletionAction

abbrev pub completion_action : CompletionSignalOutcome → CompletionAction
completion_action enqueued = attempt_recovery_cleanup_and_complete
completion_action reconnectable_failure = preserve_recovery_and_reconnect
completion_action fatal_failure = preserve_recovery_and_fail

abbrev pub recovery_cleanup_retry_delay_ms : ℕ → Option ℕ
recovery_cleanup_retry_delay_ms (suc zero) = some 50
recovery_cleanup_retry_delay_ms (suc (suc zero)) = some 150
recovery_cleanup_retry_delay_ms _ = none

-- The delays that were slept, and what is returned; none when the fuel is used up.
abbrev pub Cleanup : Type 0 → Type 0
Cleanup E = Option (List ℕ × Result E (Unit {0}))

abbrev slept : {E : Type 0} → ℕ → Cleanup E → Cleanup E
slept delay none = none
slept delay (some (delays, result)) = some (delay ∷ delays, result)

abbrev after_failure : {E : Type 0} → Option ℕ → E → Cleanup E → Cleanup E
after_failure none error rest = some ([], err error)
after_failure (some delay) error rest = slept delay rest

abbrev after_delete : {E : Type 0} → Result E (Unit {0}) → ℕ → Cleanup E → Cleanup E
after_delete (ok done) failed_attempts rest = some ([], ok tt)
after_delete (err error) failed_attempts rest =
    after_failure (recovery_cleanup_retry_delay_ms failed_attempts) error rest

-- `answers n` is what the storage replies to the attempt after n others.
unfoldable pub delete_from : {E : Type 0} → (ℕ → Result E (Unit {0})) → ℕ → ℕ → ℕ → Cleanup E
delete_from answers zero n failed_attempts = none
delete_from answers (suc fuel) n failed_attempts =
    let next = min 255 (failed_attempts + 1) in
    let rest = delete_from answers fuel (n + 1) next in after_delete (answers n) next rest

abbrev pub delete_stream_recovery_with_retry :
    {E : Type 0} → (ℕ → Result E (Unit {0})) → ℕ → Cleanup E
delete_stream_recovery_with_retry answers fuel = delete_from answers fuel 0 0

-- The first of three answers that is a success, or else the last, after the delays before it.
abbrev pub first_success :
    {E : Type 0}
    → Result E (Unit {0})
    → Result E (Unit {0})
    → Result E (Unit {0})
    → List ℕ × Result E (Unit {0})
first_success (ok done) second third = ([], ok tt)
first_success (err e) (ok done) third = (50 ∷ [], ok tt)
first_success (err e) (err f) third = (50 ∷ 150 ∷ [], third)

after_delete-first_success :
    {E : Type 0} (first second third : Result E (Unit {0})) (rest : Cleanup E)
    → after_delete first 1 (after_delete second 2 (after_delete third 3 rest))
      ≡ some (first_success first second third)
after_delete-first_success (ok done) second third rest = refl
after_delete-first_success (err e) (ok done) third rest = refl
after_delete-first_success (err e) (err f) (ok done) rest = refl
after_delete-first_success (err e) (err f) (err g) rest = refl

-- The removal of a recovery record ends after at most three attempts, with the first success or else the
-- error of the third, and sleeps 50 and then 150 milliseconds between them.
pub delete_stream_recovery_with_retry-first_success :
    {E : Type 0} (answers : ℕ → Result E (Unit {0})) (fuel : ℕ)
    → delete_stream_recovery_with_retry answers (suc (suc (suc fuel)))
      ≡ some (first_success (answers 0) (answers 1) (answers 2))
unfolding delete_from
delete_stream_recovery_with_retry-first_success answers fuel =
    after_delete-first_success (answers 0) (answers 1) (answers 2) (delete_from answers fuel 3 3)

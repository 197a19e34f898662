-- ===== src/Domain/Time.antt =====
-- rust/crates/domain/src/time.rs. The newtypes over `u64` are numbers; `new` and `value` are the
-- identity.
use p2p_transmission.Prelude.{ℕ, Result, ok_or}
use p2p_transmission.Prelude.Words.{checked_add}

abbrev pub EpochMillis : Type 0
EpochMillis = ℕ

abbrev pub DurationMillis : Type 0
DurationMillis = ℕ

abbrev pub Revision : Type 0
Revision = ℕ

pub data TimeError : Type 0 where
  overflow : TimeError

-- `EpochMillis::checked_add`.
unfoldable pub add_duration : EpochMillis → DurationMillis → Result TimeError EpochMillis
add_duration time duration = ok_or (checked_add time duration) overflow

-- `Revision::next`.
unfoldable pub next : Revision → Result TimeError Revision
next revision = ok_or (checked_add revision 1) overflow

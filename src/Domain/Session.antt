-- ===== src/Domain/Session.antt =====
-- rust/crates/domain/src/session.rs: display names and anonymous sessions with a deadline.
use p2p_transmission.Prelude.{
  ℕ, Bool, true, false, ◌==◌, ◌||◌, ltb, leb, if◌then◌else◌, length, any, Result, ok, err, ◌>>◌,
  reject_if,
}
use p2p_transmission.Prelude.Text.{Text, trim, is_control}
use p2p_transmission.Domain.Ids.{SessionId}
use p2p_transmission.Domain.Time.{EpochMillis}

abbrev pub max_display_name_chars : ℕ
max_display_name_chars = 48

pub data DisplayNameError : Type 0 where
  invalid_length control_character : DisplayNameError

abbrev pub DisplayName : Type 0
DisplayName = Text

-- `DisplayName::parse`; `chars().count()` is the number of code points.
unfoldable pub parse_display_name : Text → Result DisplayNameError DisplayName
parse_display_name input = do
  let value = trim input
  reject_if (length value == 0 || ltb max_display_name_chars (length value)) invalid_length
  reject_if (any is_control value) control_character
  ok value

pub data SessionState : Type 0 where
  active expired : SessionState

abbrev pub is_expired : SessionState → Bool
is_expired active = false
is_expired expired = true

pub record Session : Type 0 where
  pub id : SessionId
  pub display_name : DisplayName
  pub expires_at : EpochMillis
  pub state : SessionState

pub data SessionError : Type 0 where
  invalid_expiry expiry_not_reached session_expired : SessionError

unfoldable pub create :
    SessionId → DisplayName → EpochMillis → EpochMillis → Result SessionError Session
create id display_name now expires_at =
    if leb expires_at now
    then err invalid_expiry
    else ok
        (record { id = id; display_name = display_name; expires_at = expires_at; state = active })

unfoldable pub restore : SessionId → DisplayName → EpochMillis → SessionState → Session
restore id display_name expires_at state = record {
  id = id;
  display_name = display_name;
  expires_at = expires_at;
  state = state;
}

-- The new state beside the returned `Result<bool, _>`.
unfoldable pub expire : Session → EpochMillis → Session × Result SessionError Bool
expire s now =
    if is_expired s.state
    then (s, ok false)
    else if ltb now s.expires_at
    then (s, err expiry_not_reached)
    else (record s { state = expired }, ok true)

unfoldable pub ensure_active : Session → EpochMillis → Result SessionError (Unit {0})
ensure_active s now = reject_if (is_expired s.state || leb s.expires_at now) session_expired

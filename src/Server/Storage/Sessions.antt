-- ===== src/Server/Storage/Sessions.antt =====
-- The row of a session: `insert_session` and `find_session` of rust/apps/server/src/storage/mod.rs, with
-- `decode_session` of its codec.rs.
use p2p_transmission.Prelude.{
  ℕ, ◌≤◌, ◌≡◌, refl, Option, none, some, if◌then◌else◌, Result, ok, err, ◌>>=◌, map_err,
}
use p2p_transmission.Prelude.Text.{Text, text}
use p2p_transmission.OrdMap.Order.{text_order, same, text_cmp}
use p2p_transmission.Domain.Session.{
  DisplayName, DisplayNameError, parse_display_name, SessionState, active, expired, Session,
  restore,
}
use p2p_transmission.Server.Storage.{
  StorageError, corrupt_data, unknown_text, invalid_name, SqlInteger, nonnegative, i64_max,
  sql_integer, unsigned_sql_integer, decode_id,
}
use p2p_transmission.Server.Storage.Writing.{IsId, sql_integer-fits}

abbrev pub session_state_text : SessionState → Text
session_state_text active = text "active"
session_state_text expired = text "expired"

unfoldable pub parse_session_state : Text → Result StorageError SessionState
parse_session_state value =
    if same value (text "active")
    then ok active
    else if same value (text "expired")
    then ok expired
    else err (corrupt_data (unknown_text (text "sessions.state") value))

pub record SessionRow : Type 0 where
  pub id : Text
  pub display_name : Text
  pub state : Text
  pub created_at_ms : SqlInteger
  pub expires_at_ms : SqlInteger
  pub updated_at_ms : SqlInteger

abbrev pub decode_name : Text → Result StorageError DisplayName
decode_name value =
    map_err
      (λ (e : DisplayNameError). corrupt_data (invalid_name (text "sessions.display_name") value e))
      (parse_display_name value)

unfoldable pub decode_session : SessionRow → Result StorageError Session
decode_session row = do
  id ← decode_id (text "session id") (text "sessions.id") row.id
  display_name ← decode_name row.display_name
  state ← parse_session_state row.state
  expires_at ← unsigned_sql_integer row.expires_at_ms (text "sessions.expires_at_ms")
  ok (restore id display_name expires_at state)

-- What `insert_session` binds.
unfoldable pub session_row : Session → ℕ → Result StorageError SessionRow
session_row s now = do
  created_at ← sql_integer now
  expires_at ← sql_integer s.expires_at
  updated_at ← sql_integer now
  ok (record {
    id = s.id;
    display_name = s.display_name;
    state = session_state_text s.state;
    created_at_ms = created_at;
    expires_at_ms = expires_at;
    updated_at_ms = updated_at;
  })

-- `find_session` on the row that its query gives: `row.map(decode_session).transpose()`.
unfoldable pub find_session : Option SessionRow → Result StorageError (Option Session)
find_session none = ok none
find_session (some row) = do session ← decode_session row; ok (some session)

pub record IsStorableSession (s : Session) : Type 0 where
  pub id_parsed : IsId (text "session id") s.id
  pub name_parsed : parse_display_name s.display_name ≡ ok s.display_name
  pub deadline_fits : s.expires_at ≤ i64_max

parse-session_state_text : (s : SessionState) → parse_session_state (session_state_text s) ≡ ok s
unfolding parse_session_state same text_cmp
parse-session_state_text active = refl
parse-session_state_text expired = refl

abbrev stored_session : Session → ℕ → SessionRow
stored_session s now = record {
  id = s.id;
  display_name = s.display_name;
  state = session_state_text s.state;
  created_at_ms = nonnegative now;
  expires_at_ms = nonnegative s.expires_at;
  updated_at_ms = nonnegative now;
}

session_row-stored :
    (s : Session)
    → (now : ℕ) → now ≤ i64_max
    → s.expires_at ≤ i64_max
    → session_row s now ≡ ok (stored_session s now)
unfolding session_row
session_row-stored s now fits deadline =
    rw (sql_integer-fits now fits, sql_integer-fits s.expires_at deadline) refl

find-stored_session :
    (s : Session)
    → (now : ℕ) → IsStorableSession s
    → find_session (some (stored_session s now)) ≡ ok (some s)
unfolding find_session decode_session restore
find-stored_session s now p = rw (p.id_parsed, p.name_parsed, parse-session_state_text s.state) refl

-- A session whose id and display name are ones that `parse` accepts is bound to a row and is found in it
-- again, if its deadline and the time of writing are at most 2^63 - 1.
pub find_session-session_row :
    (s : Session)
    → (now : ℕ) → now ≤ i64_max
    → IsStorableSession s
    → (row : SessionRow) × (session_row s now ≡ ok row) × (find_session (some row) ≡ ok (some s))
find_session-session_row s now fits p = (
  stored_session s now,
  session_row-stored s now fits p.deadline_fits,
  find-stored_session s now p,
)

-- ===== src/Server/Storage/Database.antt =====
-- rust/apps/server/src/storage: the statements that write a room, the checks that the tables of
-- rust/apps/server/migrations make on a row alone, and `map_write_error`. What SQLite answers for the other
-- rows (keys, unique indices, sessions that are referred to) and for the disk is a parameter. The texts of
-- a state are those of its enumeration, which the tables list too.
use p2p_transmission.Prelude.{
  ℕ, Bool, true, false, leb, ltb, ◌&&◌, ◌||◌, not, if◌then◌else◌, Option, none, some, Result, ok,
  err,
}
use p2p_transmission.Prelude.Text.{Text, text}
use p2p_transmission.OrdMap.Order.{text_order, same}
use p2p_transmission.Domain.Ids.{RoomId, RequestId}
use p2p_transmission.Server.Storage.{
  StorageError, database, unique_conflict, foreign_key_violation, SqlInteger, nonnegative, negative,
  RoomRow, MemberRow, RequestRow,
}

pub data SqliteError : Type 0 where
  unique_violated foreign_key_violated : SqliteError
  other_failure : Text → SqliteError

abbrev pub map_write_error : SqliteError → StorageError
map_write_error unique_violated = unique_conflict
map_write_error foreign_key_violated = foreign_key_violation
map_write_error (other_failure message) = database message

-- With the id of the request that creates the room, and the id of the room for the rows of its children.
pub data Statement : Type 0 where
  insert_room_row : RequestId → RoomRow → Statement
  upsert_member : RoomId → MemberRow → Statement
  upsert_request : RoomId → RequestRow → Statement

abbrev pub at_least : ℕ → SqlInteger → Bool
at_least bound (nonnegative n) = leb bound n
at_least bound (negative n) = false

abbrev pub below : SqlInteger → SqlInteger → Bool
below (nonnegative a) (nonnegative b) = ltb a b
below (nonnegative a) (negative b) = false
below (negative a) (nonnegative b) = true
below (negative a) (negative b) = ltb b a

abbrev pub is_some : Option Text → Bool
is_some none = false
is_some (some value) = true

-- online with a peer, or else without one
unfoldable pub peer_fits : Text → Option Text → Bool
peer_fits state peer_id =
    same state (text "online") && is_some peer_id
    || not (same state (text "online")) && not (is_some peer_id)

unfoldable pub row_fits : Statement → Bool
row_fits (insert_room_row request_id row) =
    at_least 1 row.revision
    && at_least 0 row.created_at_ms
    && below row.created_at_ms row.expires_at_ms
    && not (below row.updated_at_ms row.created_at_ms)
row_fits (upsert_member room_id row) =
    at_least 0 row.created_at_ms
    && not (below row.updated_at_ms row.created_at_ms)
    && peer_fits row.state row.peer_id
row_fits (upsert_request room_id row) =
    at_least 0 row.created_at_ms
    && below row.created_at_ms row.expires_at_ms
    && not (below row.updated_at_ms row.created_at_ms)

-- The answer to a statement whose row fits, and to `COMMIT`. The statements of one room differ by their
-- keys, so an answer may depend on those before it.
pub record Database : Type 0 where
  pub answer : Statement → Option SqliteError
  pub commit : Option Text

abbrev pub answered : Option SqliteError → Result StorageError (Unit {0})
answered none = ok tt
answered (some e) = err (map_write_error e)

unfoldable pub execute : Database → Statement → Result StorageError (Unit {0})
execute db statement = answered (
    if row_fits statement
    then db.answer statement
    else some (other_failure (text "CHECK constraint failed")))

abbrev pub committed : Option Text → Result StorageError (Unit {0})
committed none = ok tt
committed (some message) = err (database message)

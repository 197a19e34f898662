-- ===== src/Server/Hub/Mappings.antt =====
-- rust/apps/server/src/realtime/hub.rs: the changes of the hub's tables that its operations share.
use p2p_transmission.Prelude.{
  Bool, true, false, if◌then◌else◌, Option, none, some, List, [], ◌∷◌, ◌++◌,
}
use p2p_transmission.Prelude.Text.{text}
use p2p_transmission.OrdMap.Map.{OrdMap, get, insert}
use p2p_transmission.OrdMap.Remove.{remove}
use p2p_transmission.OrdMap.Order.{Order, text_order, pair_order, same}
use p2p_transmission.Domain.Ids.{RoomId, SessionId, PeerId}
use p2p_transmission.Protocol.Version.{current_protocol}
use p2p_transmission.Protocol.Realtime.{server_error}
use p2p_transmission.Server.Hub.State.{
  ConnectionId, ConnectionSet, Sender, Attachment, JoinWatch, Outbound, message, close,
  ConnectionEntry, HubState, Step,
}

-- `route == Some(connection_id)`.
abbrev pub routes_to : Option ConnectionId → ConnectionId → Bool
routes_to none connection = false
routes_to (some other) connection = same other connection

module _ {K : Type 0} ⦃o : Order K⦄ where
  -- `if routes.get(key) == Some(connection_id) { routes.remove(key) }`.
  unfoldable pub release : K → ConnectionId → OrdMap K ConnectionId → OrdMap K ConnectionId
  release key connection routes =
      if routes_to (get key routes) connection then remove key routes else routes

-- The set without the connection goes back, or the room goes when nothing is left of it.
abbrev pub put_back :
    RoomId → ConnectionSet → OrdMap RoomId ConnectionSet → OrdMap RoomId ConnectionSet
put_back room [] rooms = remove room rooms
put_back room (c ∷ rest) rooms = insert room (c ∷ rest) rooms

unfoldable pub leave_room :
    RoomId → ConnectionId → OrdMap RoomId ConnectionSet → OrdMap RoomId ConnectionSet
leave_room room connection rooms = elim (get room rooms) [
  | none ↦ rooms
  | some connections ↦ put_back room (remove connection connections) rooms
]

-- `room_connections.entry(room_id).or_default()`.
abbrev pub or_default : Option ConnectionSet → ConnectionSet
or_default none = []
or_default (some connections) = connections

unfoldable pub enter_room :
    RoomId → ConnectionId → OrdMap RoomId ConnectionSet → OrdMap RoomId ConnectionSet
enter_room room connection rooms =
    insert room (insert connection tt (or_default (get room rooms))) rooms

unfoldable pub detach_mappings : HubState → ConnectionId → Attachment → HubState
detach_mappings state connection a = record state {
  room_connections = leave_room a.room_id connection state.room_connections;
  session_routes = release (a.room_id, a.session_id) connection state.session_routes;
  peer_routes = release (a.room_id, a.peer_id) connection state.peer_routes;
}

unfoldable pub detach_watch_mappings : HubState → ConnectionId → JoinWatch → HubState
detach_watch_mappings state connection w = record state {
  room_connections = leave_room w.room_id connection state.room_connections;
  session_routes = release (w.room_id, w.session_id) connection state.session_routes;
}

-- `if let Some(attachment)` and `if let Some(watch)` before the two.
unfoldable pub detach_attached : HubState → ConnectionId → Option Attachment → HubState
detach_attached state connection none = state
detach_attached state connection (some a) = detach_mappings state connection a

unfoldable pub detach_watched : HubState → ConnectionId → Option JoinWatch → HubState
detach_watched state connection none = state
detach_watched state connection (some w) = detach_watch_mappings state connection w

abbrev pub set_entry : HubState → ConnectionId → ConnectionEntry → HubState
set_entry state connection entry = record state {
  connections = insert connection entry state.connections;
}

-- The detaching of the connection from where it stood, in `attach`, `watch_join`,
-- `detach` and `remove_connection_locked`.
unfoldable pub detach_own : HubState → ConnectionId → ConnectionEntry → HubState
detach_own state connection entry =
    detach_watched (detach_attached state connection entry.attachment) connection entry.join_watch

-- `remove_connection_locked` after the `?`.
unfoldable pub remove_found :
    HubState → ConnectionId → Option ConnectionEntry → HubState × Option Attachment
remove_found state connection none = (state, none)
remove_found state connection (some entry) = (
  detach_own (record state { connections = remove connection state.connections }) connection entry,
  entry.attachment,
)

unfoldable pub remove_connection_locked : HubState → ConnectionId → HubState × Option Attachment
remove_connection_locked state connection =
    remove_found state connection (get connection state.connections)

-- The attachment waits for the `unregister` of its socket.
abbrev pub keep_evicted : HubState → ConnectionId → Option Attachment → HubState
keep_evicted state connection none = state
keep_evicted state connection (some a) = record state {
  evicted_attachments = insert connection a state.evicted_attachments;
}

unfoldable pub evict_connection_locked : HubState → ConnectionId → HubState × Option Attachment
evict_connection_locked state connection =
    let removed = remove_connection_locked state connection in
    (keep_evicted removed.0 connection removed.1, removed.1)

-- `into_iter().collect()`.
abbrev pub to_list : {A : Type 0} → Option A → List A
to_list none = []
to_list (some a) = a ∷ []

-- The close notices of the connection that a newer one replaces.
abbrev pub replaced_notices : Option ConnectionEntry → List (Sender × Outbound)
replaced_notices none = []
replaced_notices (some entry) =
    (
      entry.sender,
      message (
          server_error current_protocol (text "connection_replaced")
            (text "a newer connection replaced this socket") true),
    )
    ∷ (entry.sender, close 4001 (text "connection replaced"))
    ∷ []

-- The loop over `unique_existing`.
unfoldable pub replace_all : HubState → List ConnectionId → Step (List Attachment)
replace_all state [] = record { state = state; sends = []; result = [] }
replace_all state (existing ∷ rest) =
    let evicted = evict_connection_locked state existing in
    let later = replace_all evicted.0 rest in
    record {
      state = later.state;
      sends = replaced_notices (get existing state.connections) ++ later.sends;
      result = to_list evicted.1 ++ later.result;
    }

-- `flatten().filter(|existing| existing != connection_id)`, collected in a set.
abbrev pub add_other : ConnectionId → Option ConnectionId → ConnectionSet → ConnectionSet
add_other connection none found = found
add_other connection (some existing) found =
    if same existing connection then found else insert existing tt found

unfoldable pub unique_existing :
    HubState → ConnectionId → RoomId → SessionId → PeerId → ConnectionSet
unique_existing state connection room session peer =
    add_other connection (get (room, peer) state.peer_routes)
      (add_other connection (get (room, session) state.session_routes) [])

unfoldable pub enter_attached : HubState → ConnectionId → ConnectionEntry → Attachment → HubState
enter_attached state connection entry a = record state {
  connections =
      insert connection (record entry { attachment = some a; join_watch = none }) state.connections;
  room_connections = enter_room a.room_id connection state.room_connections;
  session_routes = insert (a.room_id, a.session_id) connection state.session_routes;
  peer_routes = insert (a.room_id, a.peer_id) connection state.peer_routes;
}

unfoldable pub enter_watching : HubState → ConnectionId → ConnectionEntry → JoinWatch → HubState
enter_watching state connection entry w = record state {
  connections =
      insert connection (record entry { attachment = none; join_watch = some w }) state.connections;
  room_connections = enter_room w.room_id connection state.room_connections;
  session_routes = insert (w.room_id, w.session_id) connection state.session_routes;
}

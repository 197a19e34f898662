-- ===== src/Server/Hub/Operations.antt =====
-- rust/apps/server/src/realtime/hub.rs: registering, attaching and leaving, one function for each
-- operation. The lock that each takes makes it one step. `iterate` is the order in which a hash set
-- is walked.
use p2p_transmission.Prelude.{if◌then◌else◌, Option, none, some, List, [], Result, ok, err, ok_or}
use p2p_transmission.OrdMap.Map.{get}
use p2p_transmission.OrdMap.Remove.{remove}
use p2p_transmission.OrdMap.Order.{text_order, pair_order, same}
use p2p_transmission.Domain.Ids.{RoomId, RoomCode, SessionId, PeerId}
use p2p_transmission.Server.Hub.State.{
  ConnectionId, ConnectionSet, Sender, Attachment, JoinWatch, ConnectionEntry, HubState, HubError,
  connection_not_found, not_attached, Step,
}
use p2p_transmission.Server.Hub.Mappings.{
  set_entry, remove_connection_locked, evict_connection_locked, to_list, replace_all,
  unique_existing, detach_own, enter_attached, enter_watching,
}

-- `RealtimeHub::new` without the capacity of the queues, which is tokio's.
abbrev pub empty_hub : HubState
empty_hub = record {
  connections = [];
  evicted_attachments = [];
  room_connections = [];
  session_routes = [];
  peer_routes = [];
}

unfoldable pub register : HubState → ConnectionId → Sender → SessionId → HubState
register state connection sender session =
    set_entry state connection
      (record { session_id = session; sender = sender; attachment = none; join_watch = none })

module _ (iterate : ConnectionSet → List ConnectionId) where
  -- The part of `attach` after the loop that replaces older connections.
  abbrev pub attach_entry :
      Step (List Attachment)
      → ConnectionId
      → Attachment
      → Option ConnectionEntry
      → Step (Result HubError (List Attachment))
  attach_entry replaced connection a none = record {
    state = replaced.state;
    sends = replaced.sends;
    result = err connection_not_found;
  }
  attach_entry replaced connection a (some entry) = record {
    state = enter_attached (detach_own replaced.state connection entry) connection entry a;
    sends = replaced.sends;
    result = ok replaced.result;
  }

  unfoldable pub attach_found :
      HubState
      → ConnectionId
      → RoomId
      → RoomCode
      → PeerId
      → Option ConnectionEntry
      → Step (Result HubError (List Attachment))
  attach_found state connection room code peer none = record {
    state = state;
    sends = [];
    result = err connection_not_found;
  }
  attach_found state connection room code peer (some entry) =
      let existing = iterate (unique_existing state connection room entry.session_id peer) in
      let replaced = replace_all state existing in
      attach_entry replaced connection
        (record { room_id = room; room_code = code; session_id = entry.session_id; peer_id = peer })
        (get connection replaced.state.connections)

  unfoldable pub attach :
      HubState
      → ConnectionId
      → RoomId
      → RoomCode
      → PeerId
      → Step (Result HubError (List Attachment))
  attach state connection room code peer =
      attach_found state connection room code peer (get connection state.connections)

-- The other connection that holds the session's route, which `watch_join` evicts.
abbrev pub evict_other :
    HubState → ConnectionId → Option ConnectionId → HubState × Option Attachment
evict_other state connection none = (state, none)
evict_other state connection (some existing) =
    if same existing connection then (state, none) else evict_connection_locked state existing

abbrev pub watch_entry :
    HubState × Option Attachment
    → ConnectionId
    → JoinWatch
    → Option ConnectionEntry
    → HubState × Result HubError (List Attachment)
watch_entry replaced connection w none = (replaced.0, err connection_not_found)
watch_entry replaced connection w (some entry) = (
  enter_watching (detach_own replaced.0 connection entry) connection entry w,
  ok (to_list replaced.1),
)

unfoldable pub watch_found :
    HubState
    → ConnectionId
    → RoomId
    → Option ConnectionEntry
    → HubState × Result HubError (List Attachment)
watch_found state connection room none = (state, err connection_not_found)
watch_found state connection room (some entry) =
    let replaced =
      evict_other state connection (get (room, entry.session_id) state.session_routes) in
    watch_entry replaced connection (record { room_id = room; session_id = entry.session_id })
      (get connection replaced.0.connections)

unfoldable pub watch_join :
    HubState → ConnectionId → RoomId → HubState × Result HubError (List Attachment)
watch_join state connection room =
    watch_found state connection room (get connection state.connections)

-- `take` leaves none in the entry.
unfoldable pub detach_found :
    HubState
    → ConnectionId
    → Option ConnectionEntry
    → HubState × Result HubError (Option Attachment)
detach_found state connection none = (state, err connection_not_found)
detach_found state connection (some entry) = (
  detach_own (set_entry state connection (record entry { attachment = none; join_watch = none }))
      connection entry,
  ok entry.attachment,
)

unfoldable pub detach : HubState → ConnectionId → HubState × Result HubError (Option Attachment)
detach state connection = detach_found state connection (get connection state.connections)

-- `or_else(|| state.evicted_attachments.remove(connection_id))`.
abbrev pub or_evicted : HubState × Option Attachment → ConnectionId → HubState × Option Attachment
or_evicted (state, some a) connection = (state, some a)
or_evicted (state, none) connection = (
  record state { evicted_attachments = remove connection state.evicted_attachments },
  get connection state.evicted_attachments,
)

unfoldable pub unregister : HubState → ConnectionId → HubState × Option Attachment
unregister state connection = or_evicted (remove_connection_locked state connection) connection

abbrev pub attachment_of : Option ConnectionEntry → Option Attachment
attachment_of none = none
attachment_of (some entry) = entry.attachment

unfoldable pub attachment : HubState → ConnectionId → Result HubError Attachment
attachment state connection = ok_or (attachment_of (get connection state.connections)) not_attached

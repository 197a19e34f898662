-- ===== src/Server/Hub/Sending.antt =====
-- rust/apps/server/src/realtime/hub.rs: sending and disconnecting, one function for each operation.
-- Parameters: `try_send`, tokio's answer to a message, and `iterate`, the order in which a hash set is
-- walked.
use p2p_transmission.Prelude.{
  ℕ, Bool, true, false, if◌then◌else◌, Option, none, some, List, [], ◌∷◌, ◌++◌, length, Result, ok,
  err,
}
use p2p_transmission.Prelude.Text.{Text}
use p2p_transmission.OrdMap.Map.{get}
use p2p_transmission.OrdMap.Order.{text_order, pair_order, same}
use p2p_transmission.Domain.Ids.{RoomId, SessionId, PeerId}
use p2p_transmission.Protocol.Realtime.{ServerRealtimeMessage}
use p2p_transmission.Server.Hub.State.{
  ConnectionId, ConnectionSet, Sender, Attachment, Outbound, message, close, ConnectionEntry,
  HubState, HubError, connection_not_found, not_attached, cannot_signal_self, target_not_found,
  slow_consumer, SendOutcome, sent, full, closed, Step,
}
use p2p_transmission.Server.Hub.Mappings.{or_default, evict_connection_locked, to_list}
use p2p_transmission.Server.Hub.Operations.{attachment_of}

-- The `match result` of `send` and of `send_to_peer`, which differ in the error of a closed queue.
abbrev pub after_send :
    HubState → ConnectionId → SendOutcome → HubError → HubState × Result HubError (Unit {0})
after_send state connection sent gone = (state, ok tt)
after_send state connection full gone =
    ((evict_connection_locked state connection).0, err slow_consumer)
after_send state connection closed gone = ((evict_connection_locked state connection).0, err gone)

module _ (try_send : Sender → Outbound → SendOutcome) where
  -- Posts to the connection's queue, if it is in the table.
  unfoldable pub post :
      HubState
      → ConnectionId
      → Option ConnectionEntry
      → Outbound
      → HubError
      → Step (Result HubError (Unit {0}))
  post state connection none outbound gone = record { state = state; sends = []; result = err gone }
  post state connection (some entry) outbound gone =
      let after = after_send state connection (try_send entry.sender outbound) gone in
      record { state = after.0; sends = (entry.sender, outbound) ∷ []; result = after.1 }

  unfoldable pub send : HubState → ConnectionId → Outbound → Step (Result HubError (Unit {0}))
  unfolding post
  send state connection outbound =
      post state connection (get connection state.connections) outbound connection_not_found

  abbrev pub post_to :
      HubState → Option ConnectionId → ServerRealtimeMessage → Step (Result HubError (Unit {0}))
  post_to state none content = record { state = state; sends = []; result = err target_not_found }
  post_to state (some target) content =
      post state target (get target state.connections) (message content) target_not_found

  abbrev pub send_from :
      HubState
      → Option Attachment
      → PeerId
      → ServerRealtimeMessage
      → Step (Result HubError (Unit {0}))
  send_from state none to_peer content = record {
    state = state;
    sends = [];
    result = err not_attached;
  }
  send_from state (some from) to_peer content =
      if same from.peer_id to_peer
      then record { state = state; sends = []; result = err cannot_signal_self }
      else post_to state (get (from.room_id, to_peer) state.peer_routes) content

  unfoldable pub send_to_peer :
      HubState → ConnectionId → PeerId → ServerRealtimeMessage → Step (Result HubError (Unit {0}))
  send_to_peer state connection to_peer content =
      send_from state (attachment_of (get connection state.connections)) to_peer content

  -- `try_send(..).is_err()`, for a connection in the table.
  abbrev pub refuses : Option ConnectionEntry → Outbound → Bool
  refuses none outbound = false
  refuses (some entry) outbound = elim (try_send entry.sender outbound) [ sent ↦ false | _ ↦ true ]

-- The call of `try_send`, for a connection in the table.
abbrev pub post_of : Option ConnectionEntry → Outbound → List (Sender × Outbound)
post_of none outbound = []
post_of (some entry) outbound = (entry.sender, outbound) ∷ []

module _ (try_send : Sender → Outbound → SendOutcome) where
  unfoldable pub broadcast_to : HubState → List ConnectionId → Outbound → Step (List Attachment)
  broadcast_to state [] outbound = record { state = state; sends = []; result = [] }
  broadcast_to state (connection ∷ rest) outbound =
      let entry = get connection state.connections in
      let evicted =
        if refuses try_send entry outbound
        then evict_connection_locked state connection
        else (state, none) in
      let later = broadcast_to evicted.0 rest outbound in
      record {
        state = later.state;
        sends = post_of entry outbound ++ later.sends;
        result = to_list evicted.1 ++ later.result;
      }

  unfoldable pub broadcast :
      (ConnectionSet → List ConnectionId)
      → HubState
      → RoomId
      → ServerRealtimeMessage
      → Step (List Attachment)
  broadcast iterate state room content =
      broadcast_to state (iterate (or_default (get room state.room_connections))) (message content)

-- The loop of `disconnect_room`, and the one connection of `disconnect_session`.
unfoldable pub disconnect_all : HubState → List ConnectionId → Outbound → Step (List Attachment)
disconnect_all state [] outbound = record { state = state; sends = []; result = [] }
disconnect_all state (connection ∷ rest) outbound =
    let evicted = evict_connection_locked state connection in
    let later = disconnect_all evicted.0 rest outbound in
    record {
      state = later.state;
      sends = post_of (get connection state.connections) outbound ++ later.sends;
      result = to_list evicted.1 ++ later.result;
    }

unfoldable pub disconnect_session :
    HubState → RoomId → SessionId → ℕ → Text → Step (List Attachment)
disconnect_session state room session code reason =
    disconnect_all state (to_list (get (room, session) state.session_routes)) (close code reason)

unfoldable pub disconnect_room :
    (ConnectionSet → List ConnectionId) → HubState → RoomId → ℕ → Text → Step (List Attachment)
disconnect_room iterate state room code reason =
    disconnect_all state (iterate (or_default (get room state.room_connections)))
      (close code reason)

abbrev pub connection_count : HubState → ℕ
connection_count state = length state.connections

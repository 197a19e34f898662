-- ===== src/Server/Hub/Invariant.antt =====
-- The invariant of the hub (rust/apps/server/src/realtime/hub.rs): its three routing tables say of each
-- connection what the connection's entry says.
use p2p_transmission.Prelude.{◌≡◌, Bool, false, ◌||◌, Option, none, some}
use p2p_transmission.OrdMap.Map.{get}
use p2p_transmission.OrdMap.Order.{text_order, pair_order, same}
use p2p_transmission.Domain.Ids.{RoomId, SessionId, PeerId}
use p2p_transmission.Server.Hub.State.{
  ConnectionId, Attachment, JoinWatch, ConnectionEntry, HubState,
}
use p2p_transmission.Server.Hub.Mappings.{routes_to}
use p2p_transmission.Server.Hub.Routes.{holds}

abbrev pub attached_session : Option Attachment → RoomId × SessionId → Bool
attached_session none k = false
attached_session (some a) k = same (a.room_id, a.session_id) k

abbrev pub watched_session : Option JoinWatch → RoomId × SessionId → Bool
watched_session none k = false
watched_session (some w) k = same (w.room_id, w.session_id) k

abbrev pub attached_peer : Option Attachment → RoomId × PeerId → Bool
attached_peer none k = false
attached_peer (some a) k = same (a.room_id, a.peer_id) k

abbrev pub attached_room : Option Attachment → RoomId → Bool
attached_room none r = false
attached_room (some a) r = same a.room_id r

abbrev pub watched_room : Option JoinWatch → RoomId → Bool
watched_room none r = false
watched_room (some w) r = same w.room_id r

-- Does the entry stand in the room as the session, as the peer, at all?
abbrev pub claims_session : Option ConnectionEntry → RoomId × SessionId → Bool
claims_session none k = false
claims_session (some e) k = attached_session e.attachment k || watched_session e.join_watch k

abbrev pub claims_peer : Option ConnectionEntry → RoomId × PeerId → Bool
claims_peer none k = false
claims_peer (some e) k = attached_peer e.attachment k

abbrev pub claims_room : Option ConnectionEntry → RoomId → Bool
claims_room none r = false
claims_room (some e) r = attached_room e.attachment r || watched_room e.join_watch r

pub record Routed (st : HubState) : Type 0 where
  pub sessions :
      (k : RoomId × SessionId) (c : ConnectionId)
      → routes_to (get k st.session_routes) c ≡ claims_session (get c st.connections) k
  pub peers :
      (k : RoomId × PeerId) (c : ConnectionId)
      → routes_to (get k st.peer_routes) c ≡ claims_peer (get c st.connections) k
  pub rooms :
      (r : RoomId) (c : ConnectionId)
      → holds (get r st.room_connections) c ≡ claims_room (get c st.connections) r

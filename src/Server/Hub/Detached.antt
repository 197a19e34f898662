-- ===== src/Server/Hub/Detached.antt =====
-- The tables after `detach_mappings` and `detach_watch_mappings` of one entry
-- (rust/apps/server/src/realtime/hub.rs).
use p2p_transmission.Prelude.{◌≡◌, refl, Bool, true, not, ◌&&◌, ◌||◌, Option, none, some, arith}
use p2p_transmission.OrdMap.Map.{get}
use p2p_transmission.OrdMap.Order.{text_order, pair_order, same}
use p2p_transmission.Domain.Ids.{RoomId, SessionId, PeerId}
use p2p_transmission.Server.Hub.State.{
  ConnectionId, Attachment, JoinWatch, ConnectionEntry, HubState,
}
use p2p_transmission.Server.Hub.Mappings.{
  routes_to, detach_mappings, detach_watch_mappings, detach_attached, detach_watched, detach_own,
}
use p2p_transmission.Server.Hub.Routes.{holds, routes_to-release, holds-leave_room}
use p2p_transmission.Server.Hub.Invariant.{
  attached_session, watched_session, attached_peer, attached_room, watched_room, claims_session,
  claims_peer, claims_room,
}

and_true : (x : Bool) → x ≡ (x && true)
and_true x = ground arith

both_left : (x p q z : Bool) → ((x && not (p && z)) && not (q && z)) ≡ (x && not ((p || q) && z))
both_left x p q z = ground arith

sessions-detach_attached :
    (s : HubState) (c d : ConnectionId) (a : Option Attachment) (k : RoomId × SessionId)
    → routes_to (get k (detach_attached s c a).session_routes) d
      ≡ (routes_to (get k s.session_routes) d && not (attached_session a k && same c d))
unfolding detach_attached detach_mappings
sessions-detach_attached s c d none k = and_true _
sessions-detach_attached s c d (some a) k =
    routes_to-release k (a.room_id, a.session_id) c d s.session_routes

sessions-detach_watched :
    (s : HubState) (c d : ConnectionId) (w : Option JoinWatch) (k : RoomId × SessionId)
    → routes_to (get k (detach_watched s c w).session_routes) d
      ≡ (routes_to (get k s.session_routes) d && not (watched_session w k && same c d))
unfolding detach_watched detach_watch_mappings
sessions-detach_watched s c d none k = and_true _
sessions-detach_watched s c d (some w) k =
    routes_to-release k (w.room_id, w.session_id) c d s.session_routes

peers-detach_attached :
    (s : HubState) (c d : ConnectionId) (a : Option Attachment) (k : RoomId × PeerId)
    → routes_to (get k (detach_attached s c a).peer_routes) d
      ≡ (routes_to (get k s.peer_routes) d && not (attached_peer a k && same c d))
unfolding detach_attached detach_mappings
peers-detach_attached s c d none k = and_true _
peers-detach_attached s c d (some a) k =
    routes_to-release k (a.room_id, a.peer_id) c d s.peer_routes

peers-detach_watched :
    (s : HubState) (c : ConnectionId) (w : Option JoinWatch)
    → (detach_watched s c w).peer_routes ≡ s.peer_routes
unfolding detach_watched detach_watch_mappings
peers-detach_watched s c none = refl
peers-detach_watched s c (some w) = refl

rooms-detach_attached :
    (s : HubState) (c d : ConnectionId) (a : Option Attachment) (r : RoomId)
    → holds (get r (detach_attached s c a).room_connections) d
      ≡ (holds (get r s.room_connections) d && not (attached_room a r && same c d))
unfolding detach_attached detach_mappings
rooms-detach_attached s c d none r = and_true _
rooms-detach_attached s c d (some a) r = holds-leave_room r a.room_id c d s.room_connections

rooms-detach_watched :
    (s : HubState) (c d : ConnectionId) (w : Option JoinWatch) (r : RoomId)
    → holds (get r (detach_watched s c w).room_connections) d
      ≡ (holds (get r s.room_connections) d && not (watched_room w r && same c d))
unfolding detach_watched detach_watch_mappings
rooms-detach_watched s c d none r = and_true _
rooms-detach_watched s c d (some w) r = holds-leave_room r w.room_id c d s.room_connections

connections-detach_attached :
    (s : HubState) (c : ConnectionId) (a : Option Attachment)
    → (detach_attached s c a).connections ≡ s.connections
unfolding detach_attached detach_mappings
connections-detach_attached s c none = refl
connections-detach_attached s c (some a) = refl

connections-detach_watched :
    (s : HubState) (c : ConnectionId) (w : Option JoinWatch)
    → (detach_watched s c w).connections ≡ s.connections
unfolding detach_watched detach_watch_mappings
connections-detach_watched s c none = refl
connections-detach_watched s c (some w) = refl

module _ (s : HubState) (c : ConnectionId) (e : ConnectionEntry) where
  pub connections-detach_own : (detach_own s c e).connections ≡ s.connections
  unfolding detach_own
  connections-detach_own =
      rw
        (
          connections-detach_watched (detach_attached s c e.attachment) c e.join_watch,
          connections-detach_attached s c e.attachment,
        )
        refl

  pub sessions-detach_own :
      (k : RoomId × SessionId) (d : ConnectionId)
      → routes_to (get k (detach_own s c e).session_routes) d
        ≡ (routes_to (get k s.session_routes) d && not (claims_session (some e) k && same c d))
  unfolding detach_own
  sessions-detach_own k d =
      rw
        (
          sessions-detach_watched (detach_attached s c e.attachment) c d e.join_watch k,
          sessions-detach_attached s c d e.attachment k,
        )
        (both_left _ (attached_session e.attachment k) (watched_session e.join_watch k) (same c d))

  pub peers-detach_own :
      (k : RoomId × PeerId) (d : ConnectionId)
      → routes_to (get k (detach_own s c e).peer_routes) d
        ≡ (routes_to (get k s.peer_routes) d && not (claims_peer (some e) k && same c d))
  unfolding detach_own
  peers-detach_own k d =
      rw (peers-detach_watched (detach_attached s c e.attachment) c e.join_watch)
        (peers-detach_attached s c d e.attachment k)

  pub rooms-detach_own :
      (r : RoomId) (d : ConnectionId)
      → holds (get r (detach_own s c e).room_connections) d
        ≡ (holds (get r s.room_connections) d && not (claims_room (some e) r && same c d))
  unfolding detach_own
  rooms-detach_own r d =
      rw
        (
          rooms-detach_watched (detach_attached s c e.attachment) c d e.join_watch r,
          rooms-detach_attached s c d e.attachment r,
        )
        (both_left _ (attached_room e.attachment r) (watched_room e.join_watch r) (same c d))

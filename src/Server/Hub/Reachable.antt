-- ===== src/Server/Hub/Reachable.antt =====
-- The runs of the hub (rust/apps/server/src/realtime/hub.rs): any sequence of its operations, which its
-- lock makes atomic.
use p2p_transmission.Prelude.{
  ℕ, ◌≡◌, refl, sym, ap, subst, Bool, true, false, if◌then◌else◌, Option, none, some, List, [], ◌∷◌,
  any, inl, inr, Bool-cases, Option-cases,
}
use p2p_transmission.Prelude.Text.{Text}
use p2p_transmission.OrdMap.Map.{get, contains_key}
use p2p_transmission.OrdMap.Order.{text_order, pair_order, same}
use p2p_transmission.Domain.Ids.{RoomId, RoomCode, SessionId, PeerId}
use p2p_transmission.Protocol.Realtime.{ServerRealtimeMessage}
use p2p_transmission.Server.Hub.State.{
  ConnectionId, ConnectionSet, ConnectionEntry, Sender, Attachment, Outbound, HubState, HubError,
  SendOutcome, sent, full, closed,
}
use p2p_transmission.Server.Hub.Mappings.{evict_connection_locked, remove_connection_locked}
use p2p_transmission.Server.Hub.Operations.{
  empty_hub, register, attach, watch_join, detach_found, detach, or_evicted, unregister,
  attachment_of,
}
use p2p_transmission.Server.Hub.Sending.{
  after_send, post, send, post_to, send_from, send_to_peer, refuses, broadcast_to, broadcast,
  disconnect_all, disconnect_session, disconnect_room,
}
use p2p_transmission.Server.Hub.Invariant.{Routed}
use p2p_transmission.Server.Hub.Eviction.{
  evict-Routed, removed_all-Routed, evict_all, evict_all-Routed,
}
use p2p_transmission.Server.Hub.Entering.{register-Routed, leave-Routed}
use p2p_transmission.Server.Hub.Attaching.{attach-Routed, watch_join-Routed}

-- One operation. A new connection has an identifier that no open one has: the code draws random UUIDs.
pub data Operation (iterate : ConnectionSet → List ConnectionId)
    : HubState → HubState → Type 0 where
  registers :
      {s : HubState} (c : ConnectionId) (sender : Sender) (session : SessionId)
      → get c s.connections ≡ none
      → Operation iterate s (register s c sender session)
  attaches :
      {s : HubState} (c : ConnectionId) (room : RoomId) (code : RoomCode) (peer : PeerId)
      → Operation iterate s (attach iterate s c room code peer).state
  watches :
      {s : HubState} (c : ConnectionId) (room : RoomId)
      → Operation iterate s (watch_join s c room).0
  detaches : {s : HubState} (c : ConnectionId) → Operation iterate s (detach s c).0
  unregisters : {s : HubState} (c : ConnectionId) → Operation iterate s (unregister s c).0
  sends :
      {s : HubState} (try_send : Sender → Outbound → SendOutcome) (c : ConnectionId)
      (outbound : Outbound)
      → Operation iterate s (send try_send s c outbound).state
  signals :
      {s : HubState} (try_send : Sender → Outbound → SendOutcome) (c : ConnectionId)
      (to_peer : PeerId) (content : ServerRealtimeMessage)
      → Operation iterate s (send_to_peer try_send s c to_peer content).state
  broadcasts :
      {s : HubState} (try_send : Sender → Outbound → SendOutcome) (room : RoomId)
      (content : ServerRealtimeMessage)
      → Operation iterate s (broadcast try_send iterate s room content).state
  disconnects :
      {s : HubState} (room : RoomId) (session : SessionId) (code : ℕ) (reason : Text)
      → Operation iterate s (disconnect_session s room session code reason).state
  closes_room :
      {s : HubState} (room : RoomId) (code : ℕ) (reason : Text)
      → Operation iterate s (disconnect_room iterate s room code reason).state

pub data Reachable (iterate : ConnectionSet → List ConnectionId) : HubState → Type 0 where
  start : Reachable iterate empty_hub
  after : {s t : HubState} → Reachable iterate s → Operation iterate s t → Reachable iterate t

empty_hub-Routed : Routed empty_hub
unfolding get
empty_hub-Routed = record { sessions = λ k c. refl; peers = λ k c. refl; rooms = λ r c. refl }

detach-Routed : (s : HubState) (c : ConnectionId) → Routed s → Routed (detach s c).0
unfolding detach detach_found
detach-Routed s c v = elim (Option-cases (get c s.connections)) [
  | inl h ↦ subst Routed (sym (ap (λ o. (detach_found s c o).0) h)) v
  | inr (e, h) ↦ subst Routed (sym (ap (λ o. (detach_found s c o).0) h)) (leave-Routed s c e h v)
]

or_evicted-Routed :
    (s : HubState) (o : Option Attachment) (c : ConnectionId)
    → Routed s
    → Routed (or_evicted (s, o) c).0
or_evicted-Routed s none c v = record { sessions = v.sessions; peers = v.peers; rooms = v.rooms }
or_evicted-Routed s (some a) c v = v

unregister-Routed : (s : HubState) (c : ConnectionId) → Routed s → Routed (unregister s c).0
unfolding unregister
unregister-Routed s c v =
    let removed = remove_connection_locked s c in
    or_evicted-Routed removed.0 removed.1 c (removed_all-Routed s c v)

after_send-Routed :
    (s : HubState) (c : ConnectionId) (o : SendOutcome) (gone : HubError)
    → Routed s
    → Routed (after_send s c o gone).0
after_send-Routed s c sent gone v = v
after_send-Routed s c full gone v = evict-Routed s c v
after_send-Routed s c closed gone v = evict-Routed s c v

module _ (try_send : Sender → Outbound → SendOutcome) (s : HubState) (v : Routed s) where
  post-Routed :
      (c : ConnectionId) (o : Option ConnectionEntry) (outbound : Outbound) (gone : HubError)
      → Routed (post try_send s c o outbound gone).state
  unfolding post
  post-Routed c none outbound gone = v
  post-Routed c (some e) outbound gone = after_send-Routed s c (try_send e.sender outbound) gone v

  post_to-Routed :
      (o : Option ConnectionId) (content : ServerRealtimeMessage)
      → Routed (post_to try_send s o content).state
  post_to-Routed none content = v
  post_to-Routed (some target) content = post-Routed target (get target s.connections) _ _

  send_from-Routed :
      (o : Option Attachment) (to_peer : PeerId) (content : ServerRealtimeMessage)
      → Routed (send_from try_send s o to_peer content).state
  send_from-Routed none to_peer content = v
  send_from-Routed (some a) to_peer content = elim (Bool-cases (same a.peer_id to_peer)) [
    | inl h ↦ rw h v
    | inr h ↦ rw h (post_to-Routed (get (a.room_id, to_peer) s.peer_routes) content)
  ]

evict_if-Routed :
    (b : Bool) (s : HubState) (c : ConnectionId)
    → Routed s
    → Routed (if b then evict_connection_locked s c else (s, none)).0
evict_if-Routed true s c v = evict-Routed s c v
evict_if-Routed false s c v = v

broadcast_to-Routed :
    (try_send : Sender → Outbound → SendOutcome) (s : HubState) (cs : List ConnectionId)
    (outbound : Outbound)
    → Routed s
    → Routed (broadcast_to try_send s cs outbound).state
unfolding broadcast_to
broadcast_to-Routed try_send s [] outbound v = v
broadcast_to-Routed try_send s (c ∷ rest) outbound v =
    broadcast_to-Routed try_send
      (if refuses try_send (get c s.connections) outbound
        then evict_connection_locked s c
        else (s, none)).0
      rest outbound (evict_if-Routed (refuses try_send (get c s.connections) outbound) s c v)

pub disconnect_all-evict_all :
    (s : HubState) (cs : List ConnectionId) (outbound : Outbound)
    → (disconnect_all s cs outbound).state ≡ evict_all s cs
unfolding disconnect_all evict_all
disconnect_all-evict_all s [] outbound = refl
disconnect_all-evict_all s (c ∷ rest) outbound =
    disconnect_all-evict_all (evict_connection_locked s c).0 rest outbound

disconnect_all-Routed :
    (s : HubState) (cs : List ConnectionId) (outbound : Outbound)
    → Routed s
    → Routed (disconnect_all s cs outbound).state
disconnect_all-Routed s cs outbound v =
    rw (disconnect_all-evict_all s cs outbound) (evict_all-Routed s cs v)

module _ (iterate : ConnectionSet → List ConnectionId)
    (covers : (cs : ConnectionSet) (x : ConnectionId)
      → any (λ y. same y x) (iterate cs) ≡ contains_key x cs) where
  Operation-Routed : {s t : HubState} → Operation iterate s t → Routed s → Routed t
  unfolding send send_to_peer broadcast disconnect_session disconnect_room
  Operation-Routed (registers {s} c sender session fresh) v =
      register-Routed s c sender session fresh v
  Operation-Routed (attaches {s} c room code peer) v =
      attach-Routed iterate covers s c room code peer v
  Operation-Routed (watches {s} c room) v = watch_join-Routed s c room v
  Operation-Routed (detaches {s} c) v = detach-Routed s c v
  Operation-Routed (unregisters {s} c) v = unregister-Routed s c v
  Operation-Routed (sends {s} try_send c outbound) v =
      post-Routed try_send s v c (get c s.connections) _ _
  Operation-Routed (signals {s} try_send c to_peer content) v =
      send_from-Routed try_send s v (attachment_of (get c s.connections)) to_peer content
  Operation-Routed (broadcasts {s} try_send room content) v = broadcast_to-Routed try_send s _ _ v
  Operation-Routed (disconnects {s} room session code reason) v = disconnect_all-Routed s _ _ v
  Operation-Routed (closes_room {s} room code reason) v = disconnect_all-Routed s _ _ v

  -- In every state that operations of the hub lead to from the empty one, in any order and whatever
  -- the queues answer, the routing tables and the entries agree: a session's route, a peer's route and a
  -- room's set name a connection exactly when its entry is attached to, or watches, that room as that
  -- session or peer. Conditions: a new connection's identifier is not in use, and walking a hash set
  -- visits its members and no others.
  pub Reachable-Routed : {s : HubState} → Reachable iterate s → Routed s
  Reachable-Routed start = empty_hub-Routed
  Reachable-Routed (after run step) = Operation-Routed step (Reachable-Routed run)

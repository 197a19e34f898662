-- ===== src/Server/Hub/Delivery.antt =====
-- Where `send_to_peer` and `disconnect_room` reach (rust/apps/server/src/realtime/hub.rs).
use p2p_transmission.Prelude.{
  ◌≡◌, refl, sym, ap, ◌∙◌, ◌≢◌, ◌↔◌, ℕ, true, false, if◌then◌else◌, Option, none, some, List, [],
  ◌∷◌, any, arith, inl, inr, Bool-cases, Option-cases,
}
use p2p_transmission.Prelude.Text.{Text}
use p2p_transmission.OrdMap.Map.{get, contains_key}
use p2p_transmission.OrdMap.Order.{text_order, pair_order, same, same_iff, same_self}
use p2p_transmission.Domain.Ids.{RoomId, PeerId}
use p2p_transmission.Protocol.Realtime.{ServerRealtimeMessage}
use p2p_transmission.Server.Hub.State.{
  ConnectionId, ConnectionSet, ConnectionEntry, Sender, Attachment, Outbound, message, close,
  HubState, target_not_found, SendOutcome,
}
use p2p_transmission.Server.Hub.Mappings.{routes_to, or_default}
use p2p_transmission.Server.Hub.Operations.{attachment_of}
use p2p_transmission.Server.Hub.Sending.{post, post_to, send_from, send_to_peer, disconnect_room}
use p2p_transmission.Server.Hub.Routes.{routes_to_iff, holds-or_default}
use p2p_transmission.Server.Hub.Invariant.{attached_peer, claims_peer, claims_room, Routed}
use p2p_transmission.Server.Hub.Eviction.{get-evict_all}
use p2p_transmission.Server.Hub.Reachable.{Reachable, Reachable-Routed, disconnect_all-evict_all}

-- A message of `content` to the queue of another connection of the sender's room, which is attached
-- there as `to_peer`.
pub record IsDelivery (s : HubState) (c : ConnectionId) (to_peer : PeerId)
    (content : ServerRealtimeMessage) (posted : List (Sender × Outbound)) : Type 0 where
  pub from : Attachment
  pub target : ConnectionId
  pub entry : ConnectionEntry
  pub to : Attachment
  pub sender_attached : attachment_of (get c s.connections) ≡ some from
  pub target_entry : get target s.connections ≡ some entry
  pub target_attached : entry.attachment ≡ some to
  pub same_room : to.room_id ≡ from.room_id
  pub addressed : to.peer_id ≡ to_peer
  pub other : from.peer_id ≢ to_peer
  pub one_message : posted ≡ (entry.sender, message content) ∷ []

-- What claims a peer is attached as it.
attached_peer-some :
    (o : Option Attachment) (room : RoomId) (peer : PeerId)
    → attached_peer o (room, peer) ≡ true
    → (a : Attachment) × (o ≡ some a) × (a.room_id ≡ room) × (a.peer_id ≡ peer)
attached_peer-some none room peer h = absurd cc
attached_peer-some (some a) room peer h =
    let equal : (a.room_id, a.peer_id) ≡ (room, peer) =
      (same_iff (a.room_id, a.peer_id) (room, peer)).0 h in
    (a, refl, ap (λ (p : RoomId × PeerId). p.0) equal, ap (λ (p : RoomId × PeerId). p.1) equal)

claims_peer-some :
    (o : Option ConnectionEntry) (room : RoomId) (peer : PeerId)
    → claims_peer o (room, peer) ≡ true
    → (e : ConnectionEntry) × (o ≡ some e)
      × (a : Attachment) × (e.attachment ≡ some a)
      × (a.room_id ≡ room)
      × (a.peer_id ≡ peer)
claims_peer-some none room peer h = absurd cc
claims_peer-some (some e) room peer h =
    let (a, at, same_room, same_peer) = attached_peer-some e.attachment room peer h in
    (e, refl, a, at, same_room, same_peer)

module _ (try_send : Sender → Outbound → SendOutcome) (s : HubState) (v : Routed s)
    (c : ConnectionId) (to_peer : PeerId) (content : ServerRealtimeMessage) where
  abbrev posts : List (Sender × Outbound)
  posts = (send_to_peer try_send s c to_peer content).sends

  posts_detached : attachment_of (get c s.connections) ≡ none → posts ≡ []
  unfolding send_to_peer
  posts_detached h = ap (λ o. (send_from try_send s o to_peer content).sends) h

  posts_self :
      (from : Attachment)
      → attachment_of (get c s.connections) ≡ some from
      → same from.peer_id to_peer ≡ true
      → posts ≡ []
  unfolding send_to_peer
  posts_self from h self = ap (λ o. (send_from try_send s o to_peer content).sends) h ∙ rw self refl

  posts_nowhere :
      (from : Attachment)
      → attachment_of (get c s.connections) ≡ some from
      → same from.peer_id to_peer ≡ false
      → get (from.room_id, to_peer) s.peer_routes ≡ none
      → posts ≡ []
  unfolding send_to_peer
  posts_nowhere from h other route =
      ap (λ o. (send_from try_send s o to_peer content).sends) h
      ∙ rw other (ap (λ o. (post_to try_send s o content).sends) route)

  posts_one :
      (from : Attachment) (target : ConnectionId) (e : ConnectionEntry)
      → attachment_of (get c s.connections) ≡ some from
      → same from.peer_id to_peer ≡ false
      → get (from.room_id, to_peer) s.peer_routes ≡ some target
      → get target s.connections ≡ some e
      → posts ≡ (e.sender, message content) ∷ []
  unfolding send_to_peer post
  posts_one from target e h other route entry =
      ap (λ o. (send_from try_send s o to_peer content).sends) h
      ∙ rw other (
          ap (λ o. (post_to try_send s o content).sends) route
          ∙ ap (λ o. (post try_send s target o (message content) target_not_found).sends) entry)

  delivered :
      (posted : List (Sender × Outbound))
      → posts ≡ posted
      → posted ≢ []
      → IsDelivery s c to_peer content posted
  delivered posted sent some_sent = elim (Option-cases (attachment_of (get c s.connections))) [
    | inl h ↦ absurd (some_sent (sym sent ∙ posts_detached h))
    | inr (from, h) ↦ elim (Bool-cases (same from.peer_id to_peer)) [
      | inl self ↦ absurd (some_sent (sym sent ∙ posts_self from h self))
      | inr other ↦ elim (Option-cases (get (from.room_id, to_peer) s.peer_routes)) [
        | inl route ↦ absurd (some_sent (sym sent ∙ posts_nowhere from h other route))
        | inr (target, route) ↦
            let routed : routes_to (get (from.room_id, to_peer) s.peer_routes) target ≡ true =
              rw route (same_self target) in
            let (e, entry, to, at, room, peer) =
              claims_peer-some (get target s.connections) from.room_id to_peer
                (sym (v.peers (from.room_id, to_peer) target) ∙ routed) in
            record {
              from = from;
              target = target;
              entry = e;
              to = to;
              sender_attached = h;
              target_entry = entry;
              target_attached = at;
              same_room = room;
              addressed = peer;
              other = λ equal. ground (arith, (same_iff from.peer_id to_peer).1 equal);
              one_message = sym sent ∙ posts_one from target e h other route entry;
            }
      ]
    ]
  ]

  delivers :
      (posted : List (Sender × Outbound)) → IsDelivery s c to_peer content posted → posts ≡ posted
  delivers posted d =
      let other : same d.from.peer_id to_peer ≡ false =
        elim (Bool-cases (same d.from.peer_id to_peer)) [
          | inl self ↦ absurd (d.other ((same_iff d.from.peer_id to_peer).0 self))
          | inr h ↦ h
        ] in
      let claimed : claims_peer (get d.target s.connections) (d.from.room_id, to_peer) ≡ true =
        rw (d.target_entry, d.target_attached, d.same_room, d.addressed)
          (same_self (d.from.room_id, to_peer)) in
      let route : get (d.from.room_id, to_peer) s.peer_routes ≡ some d.target =
        routes_to_iff _ _ (v.peers (d.from.room_id, to_peer) d.target ∙ claimed) in
      posts_one d.from d.target d.entry d.sender_attached other route d.target_entry
      ∙ sym d.one_message

module _ (iterate : ConnectionSet → List ConnectionId)
    (covers : (cs : ConnectionSet) (x : ConnectionId)
      → any (λ y. same y x) (iterate cs) ≡ contains_key x cs)
    (s : HubState) (run : Reachable iterate s) where
  -- In a reachable state of the hub, `send_to_peer` posts the messages `posted`, of which there is at least
  -- one, exactly when the sending connection is attached to a room as another peer than the one
  -- addressed, some connection is attached to the same room as the peer addressed, and `posted` is the one
  -- message to that connection's queue. Condition: walking a hash set visits its members and no
  -- others.
  pub send_to_peer-IsDelivery :
      (try_send : Sender → Outbound → SendOutcome) (c : ConnectionId) (to_peer : PeerId)
      (content : ServerRealtimeMessage) (posted : List (Sender × Outbound))
      → posted ≢ []
      → ((send_to_peer try_send s c to_peer content).sends ≡ posted)
        ↔ IsDelivery s c to_peer content posted
  send_to_peer-IsDelivery try_send c to_peer content posted some_sent =
      let v = Reachable-Routed iterate covers run in
      (
        λ h. delivered try_send s v c to_peer content posted h some_sent,
        delivers try_send s v c to_peer content posted,
      )

  -- In a reachable state of the hub, `disconnect_room` takes out exactly the connections that are
  -- attached to the room or watch it, and leaves the entry of every other connection as it was.
  -- Condition: walking a hash set visits its members and no others.
  pub connections-disconnect_room :
      (room : RoomId) (code : ℕ) (reason : Text) (d : ConnectionId)
      → get d (disconnect_room iterate s room code reason).state.connections
        ≡ (if claims_room (get d s.connections) room then none else get d s.connections)
  unfolding disconnect_room
  connections-disconnect_room room code reason d =
      let cs = iterate (or_default (get room s.room_connections)) in
      let members : any (λ y. same y d) cs ≡ claims_room (get d s.connections) room =
        covers (or_default (get room s.room_connections)) d
        ∙ holds-or_default (get room s.room_connections) d
        ∙ (Reachable-Routed iterate covers run).rooms room d in
      ap (λ (t : HubState). get d t.connections) (disconnect_all-evict_all s cs (close code reason))
      ∙ get-evict_all s cs d
      ∙ ap (λ b. if b then none else get d s.connections) members

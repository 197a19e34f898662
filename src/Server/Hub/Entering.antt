-- ===== src/Server/Hub/Entering.antt =====
-- The tables after a connection enters a room, leaves it or registers
-- (rust/apps/server/src/realtime/hub.rs).
use p2p_transmission.Prelude.{
  ◌≡◌, refl, sym, ◌∙◌, ap, subst, Bool, false, if◌then◌else◌, not, ◌&&◌, ◌||◌, Option, none, some,
  arith, inl, inr, Bool-cases,
}
use p2p_transmission.OrdMap.Map.{OrdMap, get, insert, get-insert}
use p2p_transmission.OrdMap.Order.{Order, text_order, pair_order, same, same_iff}
use p2p_transmission.Domain.Ids.{RoomId, SessionId, PeerId}
use p2p_transmission.Server.Hub.State.{
  ConnectionId, Sender, Attachment, JoinWatch, ConnectionEntry, HubState,
}
use p2p_transmission.Server.Hub.Mappings.{
  routes_to, set_entry, detach_own, enter_attached, enter_watching,
}
use p2p_transmission.Server.Hub.Operations.{register}
use p2p_transmission.Server.Hub.Routes.{holds, routes_to-insert, holds-enter_room}
use p2p_transmission.Server.Hub.Invariant.{claims_session, claims_peer, claims_room, Routed}
use p2p_transmission.Server.Hub.Detached.{
  connections-detach_own, sessions-detach_own, peers-detach_own, rooms-detach_own,
}

or_false : (x : Bool) → (x || false) ≡ x
or_false x = ground arith

module _ {K : Type 0} ⦃o : Order K⦄ (claims : Option ConnectionEntry → K → Bool) (k : K)
    (said : Bool) (m : OrdMap ConnectionId ConnectionEntry) (c d : ConnectionId)
    (e new : ConnectionEntry) (h : get c m ≡ some e)
    (says : said ≡ (claims (get d m) k && not (claims (some e) k && same c d))) where
  -- The new entry claims nothing.
  left_claim : claims (some new) k ≡ false → said ≡ claims (get d (insert c new m)) k
  left_claim nothing = elim (Bool-cases (same c d)) [
    | inl hit ↦
        rw (get-insert d c new m, hit, nothing, says, hit, sym ((same_iff c d).0 hit), h)
          (ground arith)
    | inr miss ↦ rw (get-insert d c new m, miss, says, miss) (ground arith)
  ]

  -- The new entry claims one key, and no other connection claims it.
  unique_claim :
      (key : K)
      → claims (some new) k ≡ same key k
      → (same c d ≡ false → claims (get d m) key ≡ false)
      → (if same key k then same c d else said) ≡ claims (get d (insert c new m)) k
  unique_claim key one others = elim (Bool-cases (same key k)) [
    | inl at ↦ elim (Bool-cases (same c d)) [
      | inl hit ↦ rw (get-insert d c new m, hit, one, at) refl
      | inr miss ↦
          rw (get-insert d c new m, at, miss)
            (sym (subst (λ j. claims (get d m) j ≡ false) ((same_iff key k).0 at) (others miss)))
    ]
    | inr off ↦ rw off (left_claim (one ∙ off))
  ]

  -- The new entry claims one room, as others may.
  shared_claim :
      (key : K)
      → claims (some new) k ≡ same key k
      → ((same key k && same c d) || said) ≡ claims (get d (insert c new m)) k
  shared_claim key one = elim (Bool-cases (same c d)) [
    | inl hit ↦
        rw (get-insert d c new m, hit, one, says, hit, sym ((same_iff c d).0 hit), h) (ground arith)
    | inr miss ↦ rw (get-insert d c new m, miss, says, miss) (ground arith)
  ]

fresh_claim :
    {K : Type 0} (claims : Option ConnectionEntry → K → Bool) (k : K)
    (m : OrdMap ConnectionId ConnectionEntry) (c d : ConnectionId) (new : ConnectionEntry)
    → get c m ≡ none
    → claims none k ≡ false
    → claims (some new) k ≡ false
    → claims (get d m) k ≡ claims (get d (insert c new m)) k
fresh_claim claims k m c d new h nothing claimless = elim (Bool-cases (same c d)) [
  | inl hit ↦ rw (get-insert d c new m, hit, claimless, sym ((same_iff c d).0 hit), h, nothing) refl
  | inr miss ↦ rw (get-insert d c new m, miss) refl
]

module _ (s : HubState) (c : ConnectionId) (e : ConnectionEntry) (h : get c s.connections ≡ some e)
    (v : Routed s) where
  -- What the tables say once the entry's own claims are released.
  own_sessions :
      (k : RoomId × SessionId) (d : ConnectionId)
      → routes_to (get k (detach_own s c e).session_routes) d
        ≡ (claims_session (get d s.connections) k && not (claims_session (some e) k && same c d))
  own_sessions k d = rw (sessions-detach_own s c e k d, v.sessions k d) refl

  own_peers :
      (k : RoomId × PeerId) (d : ConnectionId)
      → routes_to (get k (detach_own s c e).peer_routes) d
        ≡ (claims_peer (get d s.connections) k && not (claims_peer (some e) k && same c d))
  own_peers k d = rw (peers-detach_own s c e k d, v.peers k d) refl

  own_rooms :
      (r : RoomId) (d : ConnectionId)
      → holds (get r (detach_own s c e).room_connections) d
        ≡ (claims_room (get d s.connections) r && not (claims_room (some e) r && same c d))
  own_rooms r d = rw (rooms-detach_own s c e r d, v.rooms r d) refl

  -- A connection enters where no other one stands as the session or as the peer.
  pub enter_attached-Routed :
      (a : Attachment)
      → ((d : ConnectionId)
          → same c d ≡ false
          → claims_session (get d s.connections) (a.room_id, a.session_id) ≡ false)
      → ((d : ConnectionId)
          → same c d ≡ false
          → claims_peer (get d s.connections) (a.room_id, a.peer_id) ≡ false)
      → Routed (enter_attached (detach_own s c e) c e a)
  unfolding enter_attached
  enter_attached-Routed a free_session free_peer =
      let new : ConnectionEntry = record e { attachment = some a; join_watch = none } in
      record {
        sessions = λ k d.
            rw
              (
                connections-detach_own s c e,
                routes_to-insert k (a.room_id, a.session_id) c d (detach_own s c e).session_routes,
              )
              (unique_claim claims_session k _ s.connections c d e new h (own_sessions k d)
                (a.room_id, a.session_id) (or_false _) (free_session d));
        peers = λ k d.
            rw
              (
                connections-detach_own s c e,
                routes_to-insert k (a.room_id, a.peer_id) c d (detach_own s c e).peer_routes,
              )
              (unique_claim claims_peer k _ s.connections c d e new h (own_peers k d)
                (a.room_id, a.peer_id) refl (free_peer d));
        rooms = λ r d.
            rw
              (
                connections-detach_own s c e,
                holds-enter_room r a.room_id c d (detach_own s c e).room_connections,
              )
              (shared_claim claims_room r _ s.connections c d e new h (own_rooms r d) a.room_id
                (or_false _));
      }

  pub enter_watching-Routed :
      (w : JoinWatch)
      → ((d : ConnectionId)
          → same c d ≡ false
          → claims_session (get d s.connections) (w.room_id, w.session_id) ≡ false)
      → Routed (enter_watching (detach_own s c e) c e w)
  unfolding enter_watching
  enter_watching-Routed w free_session =
      let new : ConnectionEntry = record e { attachment = none; join_watch = some w } in
      record {
        sessions = λ k d.
            rw
              (
                connections-detach_own s c e,
                routes_to-insert k (w.room_id, w.session_id) c d (detach_own s c e).session_routes,
              )
              (unique_claim claims_session k _ s.connections c d e new h (own_sessions k d)
                (w.room_id, w.session_id) refl (free_session d));
        peers = λ k d.
            rw (connections-detach_own s c e)
              (left_claim claims_peer k _ s.connections c d e new h (own_peers k d) refl);
        rooms = λ r d.
            rw
              (
                connections-detach_own s c e,
                holds-enter_room r w.room_id c d (detach_own s c e).room_connections,
              )
              (shared_claim claims_room r _ s.connections c d e new h (own_rooms r d) w.room_id
                refl);
      }

  pub leave-Routed :
      Routed (detach_own (set_entry s c (record e { attachment = none; join_watch = none })) c e)
  leave-Routed =
      let new : ConnectionEntry = record e { attachment = none; join_watch = none } in
      let t : HubState = set_entry s c new in
      record {
        sessions = λ k d.
            rw (connections-detach_own t c e, sessions-detach_own t c e k d)
              (left_claim claims_session k _ s.connections c d e new h
                (ap (λ said. said && not (claims_session (some e) k && same c d)) (v.sessions k d))
                refl);
        peers = λ k d.
            rw (connections-detach_own t c e, peers-detach_own t c e k d)
              (left_claim claims_peer k _ s.connections c d e new h
                (ap (λ said. said && not (claims_peer (some e) k && same c d)) (v.peers k d)) refl);
        rooms = λ r d.
            rw (connections-detach_own t c e, rooms-detach_own t c e r d)
              (left_claim claims_room r _ s.connections c d e new h
                (ap (λ said. said && not (claims_room (some e) r && same c d)) (v.rooms r d)) refl);
      }

-- A connection with a new identifier claims nothing.
pub register-Routed :
    (s : HubState) (c : ConnectionId) (sender : Sender) (session : SessionId)
    → get c s.connections ≡ none
    → Routed s
    → Routed (register s c sender session)
unfolding register
register-Routed s c sender session fresh v = record {
  sessions =
      λ k d. v.sessions k d ∙ fresh_claim claims_session k s.connections c d _ fresh refl refl;
  peers = λ k d. v.peers k d ∙ fresh_claim claims_peer k s.connections c d _ fresh refl refl;
  rooms = λ r d. v.rooms r d ∙ fresh_claim claims_room r s.connections c d _ fresh refl refl;
}

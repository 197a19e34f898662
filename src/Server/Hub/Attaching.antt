-- ===== src/Server/Hub/Attaching.antt =====
-- `attach` and `watch_join` (rust/apps/server/src/realtime/hub.rs): the connection that enters stands
-- alone for its session and its peer.
use p2p_transmission.Prelude.{
  ◌≡◌, refl, sym, ap, subst, ◌∙◌, Bool, true, false, if◌then◌else◌, not, ◌&&◌, ◌||◌, Option, none,
  some, List, [], ◌∷◌, any, arith, inl, inr, Bool-cases, Option-cases,
}
use p2p_transmission.OrdMap.Map.{get, contains_key, contains_key-insert}
use p2p_transmission.OrdMap.Order.{text_order, pair_order, same, same_iff, same_self}
use p2p_transmission.Domain.Ids.{RoomId, RoomCode, SessionId, PeerId}
use p2p_transmission.Server.Hub.State.{
  ConnectionId, ConnectionSet, Attachment, JoinWatch, ConnectionEntry, HubState,
}
use p2p_transmission.Server.Hub.Mappings.{
  routes_to, evict_connection_locked, replace_all, add_other, unique_existing, detach_own,
  enter_attached,
}
use p2p_transmission.Server.Hub.Operations.{
  attach_entry, attach_found, attach, evict_other, watch_entry, watch_found, watch_join,
}
use p2p_transmission.Server.Hub.Invariant.{claims_session, claims_peer, Routed}
use p2p_transmission.Server.Hub.Eviction.{
  evict-Routed, get-evict, evict_all, evict_all-Routed, get-evict_all,
}
use p2p_transmission.Server.Hub.Entering.{enter_attached-Routed, enter_watching-Routed}

replace_all-evict_all :
    (s : HubState) (cs : List ConnectionId) → (replace_all s cs).state ≡ evict_all s cs
unfolding replace_all evict_all
replace_all-evict_all s [] = refl
replace_all-evict_all s (c ∷ rest) = replace_all-evict_all (evict_connection_locked s c).0 rest

contains_key-add_other :
    (x c : ConnectionId) (o : Option ConnectionId) (found : ConnectionSet)
    → contains_key x (add_other c o found)
      ≡ ((routes_to o x && not (same c x)) || contains_key x found)
contains_key-add_other x c none found = refl
contains_key-add_other x c (some y) found =
    ground (arith, contains_key-insert x y tt found, same_iff y c, same_iff y x, same_iff c x)

either_other : (p q n : Bool) → ((p && n) || ((q && n) || false)) ≡ ((p || q) && n)
either_other p q n = ground arith

contains_key-unique_existing :
    (s : HubState) (c : ConnectionId) (room : RoomId) (session : SessionId) (peer : PeerId)
    (x : ConnectionId)
    → contains_key x (unique_existing s c room session peer) ≡ (
        (routes_to (get (room, peer) s.peer_routes) x
          || routes_to (get (room, session) s.session_routes) x)
        && not (same c x))
unfolding unique_existing contains_key
contains_key-unique_existing s c room session peer x =
    rw
      (
        contains_key-add_other x c (get (room, peer) s.peer_routes)
            (add_other c (get (room, session) s.session_routes) []),
        contains_key-add_other x c (get (room, session) s.session_routes) [],
      )
      (either_other (routes_to (get (room, peer) s.peer_routes) x)
        (routes_to (get (room, session) s.session_routes) x) (not (same c x)))

-- A claim that some table routes is gone when the connections it routes to are.
evicted_claim :
    {K : Type 0} (claims : Option ConnectionEntry → K → Bool) (k : K)
    (entry : Option ConnectionEntry) (routed gone : Bool)
    → claims none k ≡ false
    → routed ≡ claims entry k
    → (routed ≡ true → gone ≡ true)
    → claims (if gone then none else entry) k ≡ false
evicted_claim claims k entry routed true nothing same_claim covered = nothing
evicted_claim claims k entry routed false nothing same_claim covered =
    sym same_claim
    ∙ elim (Bool-cases routed) [ inl h ↦ absurd (ground (arith, covered h)) | inr h ↦ h ]

module _ (iterate : ConnectionSet → List ConnectionId)
    (covers : (cs : ConnectionSet) (x : ConnectionId)
      → any (λ y. same y x) (iterate cs) ≡ contains_key x cs)
    (s : HubState) (c : ConnectionId) (room : RoomId) (code : RoomCode) (peer : PeerId) where
  module _ (e : ConnectionEntry) (h : get c s.connections ≡ some e) (v : Routed s) where
    abbrev pub others : List ConnectionId
    others = iterate (unique_existing s c room e.session_id peer)

    abbrev pub place : Attachment
    place = record { room_id = room; room_code = code; session_id = e.session_id; peer_id = peer }

    pub any-others :
        (x : ConnectionId)
        → any (λ y. same y x) others ≡ (
            (routes_to (get (room, peer) s.peer_routes) x
              || routes_to (get (room, e.session_id) s.session_routes) x)
            && not (same c x))
    any-others x =
        covers (unique_existing s c room e.session_id peer) x
        ∙ contains_key-unique_existing s c room e.session_id peer x

    pub own_entry : get c (evict_all s others).connections ≡ some e
    own_entry =
        let spared : any (λ y. same y c) others ≡ false =
          ground (arith, any-others c, same_self c) in
        rw (get-evict_all s others c, spared) h

    -- What `attach` does in the table of a registered connection.
    pub attach_state :
        (attach iterate s c room code peer).state
        ≡ enter_attached (detach_own (evict_all s others) c e) c e place
    unfolding attach attach_found
    attach_state =
        let replaced = replace_all s others in
        let evicted : replaced.state ≡ evict_all s others = replace_all-evict_all s others in
        let found : get c replaced.state.connections ≡ some e =
          ap (λ (t : HubState). get c t.connections) evicted ∙ own_entry in
        ap (λ o. (attach_found iterate s c room code peer o).state) h
        ∙ ap (λ o. (attach_entry iterate replaced c place o).state) found
        ∙ ap (λ t. enter_attached (detach_own t c e) c e place) evicted

    pub attached-Routed : Routed (enter_attached (detach_own (evict_all s others) c e) c e place)
    attached-Routed =
        enter_attached-Routed (evict_all s others) c e own_entry (evict_all-Routed s others v) place
          (λ d other. rw (get-evict_all s others d) (
            evicted_claim claims_session (room, e.session_id) (get d s.connections) _
              (any (λ y. same y d) others) refl (v.sessions (room, e.session_id) d)
              (λ r. any-others d ∙ rw (r, other) (ground arith))))
          (λ d other. rw (get-evict_all s others d) (
            evicted_claim claims_peer (room, peer) (get d s.connections) _
              (any (λ y. same y d) others) refl (v.peers (room, peer) d)
              (λ r. any-others d ∙ rw (r, other) (ground arith))))

  pub attach-Routed : Routed s → Routed (attach iterate s c room code peer).state
  unfolding attach attach_found
  attach-Routed v = elim (Option-cases (get c s.connections)) [
    | inl h ↦ subst Routed (sym (ap (λ o. (attach_found iterate s c room code peer o).state) h)) v
    | inr (e, h) ↦ subst Routed (sym (attach_state e h v)) (attached-Routed e h v)
  ]

module _ (s : HubState) (c : ConnectionId) (room : RoomId) where
  evict_other-Routed : (o : Option ConnectionId) → Routed s → Routed (evict_other s c o).0
  evict_other-Routed none v = v
  evict_other-Routed (some x) v = elim (Bool-cases (same x c)) [
    | inl h ↦ rw h v
    | inr h ↦ rw h (evict-Routed s x v)
  ]

  get-evict_other :
      (o : Option ConnectionId) (d : ConnectionId)
      → get d (evict_other s c o).0.connections
        ≡ (if routes_to o d && not (same c d) then none else get d s.connections)
  get-evict_other none d = refl
  get-evict_other (some x) d =
      ground (arith, get-evict s x d, same_iff x c, same_iff x d, same_iff c d)

  watch_found-Routed :
      (e : ConnectionEntry)
      → get c s.connections ≡ some e
      → Routed s
      → Routed (watch_found s c room (some e)).0
  unfolding watch_found
  watch_found-Routed e h v =
      let holder = get (room, e.session_id) s.session_routes in
      let t = (evict_other s c holder).0 in
      let w : JoinWatch = record { room_id = room; session_id = e.session_id } in
      let spared : (routes_to holder c && not (same c c)) ≡ false = ground (arith, same_self c) in
      let found : get c t.connections ≡ some e = rw (get-evict_other holder c, spared) h in
      subst (λ o. Routed (watch_entry (evict_other s c holder) c w o).0) (sym found)
        (enter_watching-Routed t c e found (evict_other-Routed holder v) w (λ d other.
          rw (get-evict_other holder d) (
            evicted_claim claims_session (room, e.session_id) (get d s.connections)
              (routes_to holder d) (routes_to holder d && not (same c d)) refl
              (v.sessions (room, e.session_id) d) (λ r. rw (r, other) refl))))

  pub watch_join-Routed : Routed s → Routed (watch_join s c room).0
  unfolding watch_join watch_found
  watch_join-Routed v = elim (Option-cases (get c s.connections)) [
    | inl h ↦ subst Routed (sym (ap (λ o. (watch_found s c room o).0) h)) v
    | inr (e, h) ↦
        subst Routed (sym (ap (λ o. (watch_found s c room o).0) h)) (watch_found-Routed e h v)
  ]

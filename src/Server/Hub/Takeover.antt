-- ===== src/Server/Hub/Takeover.antt =====
-- A newer connection takes over from an older one in `attach`, and the late `unregister` of the older
-- one's socket (rust/apps/server/src/realtime/hub.rs).
use p2p_transmission.Prelude.{
  ◌≡◌, refl, sym, ap, ◌∙◌, Bool, true, false, if◌then◌else◌, not, ◌&&◌, ◌||◌, Option, none, some,
  List, [], ◌∷◌, any, arith, inl, inr, Bool-cases, subst,
}
use p2p_transmission.OrdMap.Map.{get, insert, contains_key, get-insert, get-insert_self}
use p2p_transmission.OrdMap.Remove.{remove}
use p2p_transmission.OrdMap.Order.{text_order, pair_order, same, same_iff}
use p2p_transmission.Domain.Ids.{RoomId, RoomCode, SessionId, PeerId}
use p2p_transmission.Server.Hub.State.{
  ConnectionId, ConnectionSet, ConnectionEntry, Attachment, JoinWatch, HubState,
}
use p2p_transmission.Server.Hub.Mappings.{
  detach_mappings, detach_watch_mappings, detach_attached, detach_watched, detach_own,
  enter_attached, remove_found, remove_connection_locked, keep_evicted, evict_connection_locked,
}
use p2p_transmission.Server.Hub.Operations.{attach, or_evicted, unregister}
use p2p_transmission.Server.Hub.Invariant.{claims_session, claims_peer, Routed}
use p2p_transmission.Server.Hub.Detached.{connections-detach_own}
use p2p_transmission.Server.Hub.Eviction.{get-evict, evict_all, get-evict_all}
use p2p_transmission.Server.Hub.Attaching.{others, place, any-others, attach_state}
use p2p_transmission.Server.Hub.Reachable.{Reachable, Reachable-Routed}

evicted-detach_attached :
    (s : HubState) (c : ConnectionId) (a : Option Attachment)
    → (detach_attached s c a).evicted_attachments ≡ s.evicted_attachments
unfolding detach_attached detach_mappings
evicted-detach_attached s c none = refl
evicted-detach_attached s c (some a) = refl

evicted-detach_watched :
    (s : HubState) (c : ConnectionId) (w : Option JoinWatch)
    → (detach_watched s c w).evicted_attachments ≡ s.evicted_attachments
unfolding detach_watched detach_watch_mappings
evicted-detach_watched s c none = refl
evicted-detach_watched s c (some w) = refl

evicted-detach_own :
    (s : HubState) (c : ConnectionId) (e : ConnectionEntry)
    → (detach_own s c e).evicted_attachments ≡ s.evicted_attachments
unfolding detach_own
evicted-detach_own s c e =
    evicted-detach_watched (detach_attached s c e.attachment) c e.join_watch
    ∙ evicted-detach_attached s c e.attachment

-- `evict_connection_locked` by what it finds.
abbrev evict_found : HubState → ConnectionId → Option ConnectionEntry → HubState
evict_found s c o = let removed = remove_found s c o in keep_evicted removed.0 c removed.1

-- An eviction keeps the attachments of other evicted connections.
module _ (s : HubState) (x d : ConnectionId) where
  kept_evicted :
      (t : HubState) (a : Option Attachment)
      → same x d ≡ false
      → get d (keep_evicted t x a).evicted_attachments ≡ get d t.evicted_attachments
  kept_evicted t none other = refl
  kept_evicted t (some a) other = ground (arith, get-insert d x a t.evicted_attachments)

  found_evicted :
      (o : Option ConnectionEntry)
      → same x d ≡ false
      → get d (evict_found s x o).evicted_attachments ≡ get d s.evicted_attachments
  unfolding remove_found
  found_evicted none other = refl
  found_evicted (some e) other =
      let rest : HubState = record s { connections = remove x s.connections } in
      kept_evicted (detach_own rest x e) e.attachment other
      ∙ ap (λ m. get d m) (evicted-detach_own rest x e)

  evicted_other :
      same x d ≡ false
      → get d (evict_connection_locked s x).0.evicted_attachments ≡ get d s.evicted_attachments
  unfolding evict_connection_locked remove_connection_locked
  evicted_other other = found_evicted (get x s.connections) other

  evicted_absent :
      get x s.connections ≡ none
      → get d (evict_connection_locked s x).0.evicted_attachments ≡ get d s.evicted_attachments
  unfolding evict_connection_locked remove_connection_locked remove_found
  evicted_absent h = ap (λ o. get d (evict_found s x o).evicted_attachments) h

evicted_self :
    (s : HubState) (d : ConnectionId) (e : ConnectionEntry) (a : Attachment)
    → get d s.connections ≡ some e
    → e.attachment ≡ some a
    → get d (evict_connection_locked s d).0.evicted_attachments ≡ some a
unfolding evict_connection_locked remove_connection_locked remove_found
evicted_self s d e a h at =
    let rest : HubState = record s { connections = remove d s.connections } in
    ap (λ o. get d (evict_found s d o).evicted_attachments) h
    ∙ ap (λ o. get d (keep_evicted (detach_own rest d e) d o).evicted_attachments) at
    ∙ get-insert_self d a (detach_own rest d e).evicted_attachments

evict_all-absent :
    (s : HubState) (cs : List ConnectionId) (d : ConnectionId)
    → get d s.connections ≡ none
    → get d (evict_all s cs).evicted_attachments ≡ get d s.evicted_attachments
unfolding evict_all
evict_all-absent s [] d h = refl
evict_all-absent s (x ∷ rest) d h =
    let t = (evict_connection_locked s x).0 in
    let still : get d t.connections ≡ none = ground (arith, get-evict s x d) in
    evict_all-absent t rest d still ∙ elim (Bool-cases (same x d)) [
      | inl hit ↦ evicted_absent s x d (ap (λ y. get y s.connections) ((same_iff x d).0 hit) ∙ h)
      | inr miss ↦ evicted_other s x d miss
    ]

-- Every evicted connection that was attached leaves its attachment.
evict_all-attached :
    (s : HubState) (cs : List ConnectionId) (d : ConnectionId) (e : ConnectionEntry)
    (a : Attachment)
    → get d s.connections ≡ some e
    → e.attachment ≡ some a
    → any (λ y. same y d) cs ≡ true
    → get d (evict_all s cs).evicted_attachments ≡ some a
unfolding evict_all
evict_all-attached s [] d e a h at hit = absurd cc
evict_all-attached s (x ∷ rest) d e a h at hit = elim (Bool-cases (same x d)) [
  | inl here ↦
      let t = (evict_connection_locked s x).0 in
      let gone : get d t.connections ≡ none = ground (arith, get-evict s x d) in
      evict_all-absent t rest d gone
      ∙ subst (λ y. get d (evict_connection_locked s y).0.evicted_attachments ≡ some a)
          (sym ((same_iff x d).0 here)) (evicted_self s d e a h at)
  | inr other ↦
      evict_all-attached (evict_connection_locked s x).0 rest d e a (rw (get-evict s x d, other) h)
        at (ground arith)
]

-- Does the connection stand in the room as the session or as the peer?
abbrev pub is_replaced : HubState → RoomId → SessionId → PeerId → ConnectionId → Bool
is_replaced s room session peer d =
    claims_peer (get d s.connections) (room, peer)
    || claims_session (get d s.connections) (room, session)

both_ifs :
    (own gone : Bool) (new old : Option ConnectionEntry)
    → (if own then new else if gone && not own then none else old)
      ≡ (if own then new else if gone then none else old)
both_ifs own gone new old = ground arith

module _ (iterate : ConnectionSet → List ConnectionId)
    (covers : (cs : ConnectionSet) (x : ConnectionId)
      → any (λ y. same y x) (iterate cs) ≡ contains_key x cs)
    (s : HubState) (run : Reachable iterate s) (c : ConnectionId) (room : RoomId) (code : RoomCode)
    (peer : PeerId) (e : ConnectionEntry) (h : get c s.connections ≡ some e) where
  agreed : Routed s
  agreed = Reachable-Routed iterate covers run

  abbrev older : List ConnectionId
  older = others iterate covers s c room code peer e h agreed

  any-older :
      (d : ConnectionId)
      → any (λ y. same y d) older ≡ (is_replaced s room e.session_id peer d && not (same c d))
  any-older d =
      any-others iterate covers s c room code peer e h agreed d
      ∙ rw (agreed.peers (room, peer) d, agreed.sessions (room, e.session_id) d) refl

  -- When an open connection of a reachable state of the hub attaches to a room, its own entry gets the
  -- new attachment and no join watch; every other connection that stood in the room as the same session
  -- or as the same peer is gone; and every other connection keeps its entry. Conditions: the
  -- connection is in the table, and walking a hash set visits its members and no others.
  pub connections-attach :
      (d : ConnectionId)
      → get d (attach iterate s c room code peer).state.connections ≡ (
          if same c d
          then some (record e {
            attachment = some (record {
              room_id = room;
              room_code = code;
              session_id = e.session_id;
              peer_id = peer;
            });
            join_watch = none;
          })
          else if is_replaced s room e.session_id peer d
          then none
          else get d s.connections)
  unfolding enter_attached
  connections-attach d =
      let t = evict_all s older in
      let new : ConnectionEntry = record e {
        attachment = some (place iterate covers s c room code peer e h agreed);
        join_watch = none;
      } in
      ap (λ (after : HubState). get d after.connections)
        (attach_state iterate covers s c room code peer e h agreed)
      ∙ ap (λ m. get d (insert c new m)) (connections-detach_own t c e)
      ∙ get-insert d c new t.connections
      ∙ ap (λ o. if same c d then some new else o) (get-evict_all s older d)
      ∙ ap (λ b. if same c d then some new else if b then none else get d s.connections)
          (any-older d)
      ∙ both_ifs (same c d) (is_replaced s room e.session_id peer d) (some new)
          (get d s.connections)

  evicted-attach :
      (attach iterate s c room code peer).state.evicted_attachments
      ≡ (evict_all s older).evicted_attachments
  unfolding enter_attached
  evicted-attach =
      ap (λ (after : HubState). after.evicted_attachments)
        (attach_state iterate covers s c room code peer e h agreed)
      ∙ evicted-detach_own (evict_all s older) c e

  -- After an open connection of a reachable state of the hub has attached to a room, the late
  -- `unregister` of another connection that it replaced returns the attachment that the older
  -- connection had, forgets it, and changes no entry and no route of the newer connection or of any
  -- other. Conditions: the older connection was attached and stood in the room as the same session
  -- or the same peer, the two differ, the newer one is in the table, and walking a hash set visits
  -- its members and no others.
  pub unregister-attach :
      (d : ConnectionId) (old : ConnectionEntry) (a : Attachment)
      → same c d ≡ false
      → get d s.connections ≡ some old
      → old.attachment ≡ some a
      → is_replaced s room e.session_id peer d ≡ true
      → let t = (attach iterate s c room code peer).state in
        unregister t d ≡ (record t { evicted_attachments = remove d t.evicted_attachments }, some a)
  unfolding unregister remove_connection_locked remove_found
  unregister-attach d old a other present at replaced =
      let t = (attach iterate s c room code peer).state in
      let gone : get d t.connections ≡ none = connections-attach d ∙ rw (other, replaced) refl in
      let found : any (λ y. same y d) older ≡ true = any-older d ∙ rw (replaced, other) refl in
      let waits : get d t.evicted_attachments ≡ some a =
        ap (λ m. get d m) evicted-attach ∙ evict_all-attached s older d old a present at found in
      ap (λ o. or_evicted (remove_found t d o) d) gone
      ∙ ap (λ o. (record t { evicted_attachments = remove d t.evicted_attachments }, o)) waits

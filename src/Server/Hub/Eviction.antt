-- ===== src/Server/Hub/Eviction.antt =====
-- `remove_connection_locked` and `evict_connection_locked` (rust/apps/server/src/realtime/hub.rs): what
-- they leave, and that the tables stay in agreement.
use p2p_transmission.Prelude.{
  ◌≡◌, refl, ap, sym, Bool, false, if◌then◌else◌, not, ◌&&◌, Option, none, some, List, [], ◌∷◌, any,
  arith, inl, inr, Bool-cases, Option-cases,
}
use p2p_transmission.OrdMap.Map.{OrdMap, get}
use p2p_transmission.OrdMap.Remove.{remove, get-remove}
use p2p_transmission.OrdMap.Order.{text_order, pair_order, same, same_iff}
use p2p_transmission.Server.Hub.State.{ConnectionId, Attachment, ConnectionEntry, HubState}
use p2p_transmission.Server.Hub.Mappings.{
  detach_own, remove_found, remove_connection_locked, keep_evicted, evict_connection_locked,
}
use p2p_transmission.Server.Hub.Invariant.{claims_session, claims_peer, claims_room, Routed}
use p2p_transmission.Server.Hub.Detached.{
  connections-detach_own, sessions-detach_own, peers-detach_own, rooms-detach_own,
}

-- What a table says once the entry's claims are released is what the smaller table of entries says.
removed_claim :
    {K : Type 0} (claims : Option ConnectionEntry → K → Bool) (k : K) (said : Bool)
    (m : OrdMap ConnectionId ConnectionEntry) (c d : ConnectionId) (e : ConnectionEntry)
    → claims none k ≡ false
    → get c m ≡ some e
    → said ≡ claims (get d m) k
    → (said && not (claims (some e) k && same c d)) ≡ claims (get d (remove c m)) k
removed_claim claims k said m c d e nothing h says = elim (Bool-cases (same c d)) [
  | inl hit ↦
      rw (get-remove d c m, hit, nothing, says, sym ((same_iff c d).0 hit), h) (ground arith)
  | inr miss ↦ rw (get-remove d c m, miss, says) (ground arith)
]

module _ (s : HubState) (c : ConnectionId) where
  abbrev without : HubState
  without = record s { connections = remove c s.connections }

  pub removed-Routed :
      (e : ConnectionEntry)
      → get c s.connections ≡ some e
      → Routed s
      → Routed (detach_own without c e)
  removed-Routed e h v = record {
    sessions = λ k d.
        rw (sessions-detach_own without c e k d, connections-detach_own without c e)
          (removed_claim claims_session k _ s.connections c d e refl h (v.sessions k d));
    peers = λ k d.
        rw (peers-detach_own without c e k d, connections-detach_own without c e)
          (removed_claim claims_peer k _ s.connections c d e refl h (v.peers k d));
    rooms = λ r d.
        rw (rooms-detach_own without c e r d, connections-detach_own without c e)
          (removed_claim claims_room r _ s.connections c d e refl h (v.rooms r d));
  }

  remove-absent : get c s.connections ≡ none → remove_connection_locked s c ≡ (s, none)
  unfolding remove_connection_locked remove_found
  remove-absent h = ap (remove_found s c) h

  remove-present :
      (e : ConnectionEntry)
      → get c s.connections ≡ some e
      → remove_connection_locked s c ≡ (detach_own without c e, e.attachment)
  unfolding remove_connection_locked remove_found
  remove-present e h = ap (remove_found s c) h

  pub get-removed :
      (d : ConnectionId)
      → get d (remove_connection_locked s c).0.connections
        ≡ (if same c d then none else get d s.connections)
  get-removed d = elim (Option-cases (get c s.connections)) [
    | inl h ↦ rw (remove-absent h) (ground (arith, same_iff c d))
    | inr (e, h) ↦
        rw (remove-present e h, connections-detach_own without c e) (get-remove d c s.connections)
  ]

  pub removed_all-Routed : Routed s → Routed (remove_connection_locked s c).0
  removed_all-Routed v = elim (Option-cases (get c s.connections)) [
    | inl h ↦ rw (remove-absent h) v
    | inr (e, h) ↦ rw (remove-present e h) (removed-Routed e h v)
  ]

keep_evicted-Routed :
    (s : HubState) (c : ConnectionId) (a : Option Attachment)
    → Routed s
    → Routed (keep_evicted s c a)
keep_evicted-Routed s c none v = v
keep_evicted-Routed s c (some a) v = record {
  sessions = v.sessions;
  peers = v.peers;
  rooms = v.rooms;
}

connections-keep_evicted :
    (s : HubState) (c : ConnectionId) (a : Option Attachment)
    → (keep_evicted s c a).connections ≡ s.connections
connections-keep_evicted s c none = refl
connections-keep_evicted s c (some a) = refl

pub evict-Routed :
    (s : HubState) (c : ConnectionId) → Routed s → Routed (evict_connection_locked s c).0
unfolding evict_connection_locked
evict-Routed s c v = keep_evicted-Routed _ c _ (removed_all-Routed s c v)

pub get-evict :
    (s : HubState) (c d : ConnectionId)
    → get d (evict_connection_locked s c).0.connections
      ≡ (if same c d then none else get d s.connections)
unfolding evict_connection_locked
get-evict s c d =
    let removed = remove_connection_locked s c in
    rw (connections-keep_evicted removed.0 c removed.1) (get-removed s c d)

-- The state that the loops leave, without what they send and return.
unfoldable pub evict_all : HubState → List ConnectionId → HubState
evict_all s [] = s
evict_all s (c ∷ rest) = evict_all (evict_connection_locked s c).0 rest

pub evict_all-Routed : (s : HubState) (cs : List ConnectionId) → Routed s → Routed (evict_all s cs)
unfolding evict_all
evict_all-Routed s [] v = v
evict_all-Routed s (c ∷ rest) v =
    evict_all-Routed (evict_connection_locked s c).0 rest (evict-Routed s c v)

pub get-evict_all :
    (s : HubState) (cs : List ConnectionId) (d : ConnectionId)
    → get d (evict_all s cs).connections
      ≡ (if any (λ c. same c d) cs then none else get d s.connections)
unfolding evict_all
get-evict_all s [] d = refl
get-evict_all s (c ∷ rest) d =
    ground (arith, get-evict_all (evict_connection_locked s c).0 rest d, get-evict s c d)

-- ===== src/Server/Hub/Routes.antt =====
-- Lookups after one change of the hub's tables (rust/apps/server/src/realtime/hub.rs).
use p2p_transmission.Prelude.{
  ◌≡◌, refl, Bool, true, false, if◌then◌else◌, not, ◌&&◌, ◌||◌, Option, none, some, [], ◌∷◌, arith,
  inl, inr, Bool-cases, Option-cases,
}
use p2p_transmission.OrdMap.Map.{OrdMap, get, insert, contains_key, get-insert, contains_key-insert}
use p2p_transmission.OrdMap.Remove.{remove, get-remove, contains_key-remove}
use p2p_transmission.OrdMap.Order.{Order, text_order, same, same_iff}
use p2p_transmission.Domain.Ids.{RoomId}
use p2p_transmission.Server.Hub.State.{ConnectionId, ConnectionSet}
use p2p_transmission.Server.Hub.Mappings.{
  routes_to, release, put_back, leave_room, or_default, enter_room,
}

-- Is the connection in the set?
abbrev pub holds : Option ConnectionSet → ConnectionId → Bool
holds none c = false
holds (some s) c = contains_key c s

pub routes_to_iff : (o : Option ConnectionId) (c : ConnectionId) → routes_to o c ≡ true → o ≡ some c
routes_to_iff none c h = absurd cc
routes_to_iff (some d) c h = ground (arith, (same_iff d c).0 h)

module _ {K : Type 0} ⦃o : Order K⦄ where
  pub routes_to-insert :
      (j k : K) (c d : ConnectionId) (m : OrdMap K ConnectionId)
      → routes_to (get j (insert k c m)) d ≡ (if same k j then same c d else routes_to (get j m) d)
  routes_to-insert j k c d m = ground (arith, get-insert j k c m)

  pub routes_to-release :
      (j k : K) (c d : ConnectionId) (m : OrdMap K ConnectionId)
      → routes_to (get j (release k c m)) d ≡ (routes_to (get j m) d && not (same k j && same c d))
  unfolding release
  routes_to-release j k c d m = elim (Bool-cases (routes_to (get k m) c)) [
    | inl hit ↦
        ground (arith, get-remove j k m, routes_to_iff (get k m) c hit, same_iff k j, same_iff c d)
    | inr miss ↦ ground (arith, same_iff k j, same_iff c d)
  ]

pub holds-or_default :
    (s : Option ConnectionSet) (c : ConnectionId) → contains_key c (or_default s) ≡ holds s c
unfolding contains_key
holds-or_default none c = refl
holds-or_default (some s) c = refl

holds-put_back :
    (r q : RoomId) (s : ConnectionSet) (m : OrdMap RoomId ConnectionSet) (d : ConnectionId)
    → holds (get r (put_back q s m)) d ≡ (if same q r then contains_key d s else holds (get r m) d)
unfolding contains_key
holds-put_back r q [] m d = ground (arith, get-remove r q m)
holds-put_back r q (p ∷ s) m d = ground (arith, get-insert r q (p ∷ s) m)

pub holds-leave_room :
    (r q : RoomId) (c d : ConnectionId) (m : OrdMap RoomId ConnectionSet)
    → holds (get r (leave_room q c m)) d ≡ (holds (get r m) d && not (same q r && same c d))
unfolding leave_room
holds-leave_room r q c d m = elim (Option-cases (get q m)) [
  | inl h ↦ ground (arith, same_iff q r)
  | inr (s, h) ↦
      ground (arith, holds-put_back r q (remove c s) m d, contains_key-remove d c s, same_iff q r)
]

pub holds-enter_room :
    (r q : RoomId) (c d : ConnectionId) (m : OrdMap RoomId ConnectionSet)
    → holds (get r (enter_room q c m)) d ≡ ((same q r && same c d) || holds (get r m) d)
unfolding enter_room
holds-enter_room r q c d m = ground (
  arith,
  get-insert r q (insert c tt (or_default (get q m))) m,
  contains_key-insert d c tt (or_default (get q m)),
  holds-or_default (get q m) d,
  same_iff q r,
)

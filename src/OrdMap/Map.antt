-- ===== src/OrdMap/Map.antt =====
-- `get`, `insert` and `remove`, and their laws in the form that rewrites a lookup.
use Prim.Native.Nat.Ordering.{lt, eq, gt}
use p2p_transmission.Prelude.{
  ◌≡◌, refl, ◌≢◌, Bool, true, false, if◌then◌else◌, Option, none, some, List, [], ◌∷◌, arith,
}
use p2p_transmission.OrdMap.Order.{Order, same, same_iff, same_self}

abbrev pub OrdMap : Type 0 → Type 0 → Type 0
OrdMap K V = List (K × V)

module _ {K V : Type 0} ⦃o : Order K⦄ where
  unfoldable pub get : K → OrdMap K V → Option V
  get k [] = none
  get k ((j, v) ∷ m) = if same j k then some v else get k m

  unfoldable pub contains_key : K → OrdMap K V → Bool
  contains_key k [] = false
  contains_key k ((j, v) ∷ m) = if same j k then true else contains_key k m

  -- `BTreeMap::insert` without the value that it returns, which is `get k m`.
  unfoldable pub insert : K → V → OrdMap K V → OrdMap K V
  insert k v [] = (k, v) ∷ []
  insert k v ((j, w) ∷ m) = elim (o.cmp k j) [
    | lt ↦ (k, v) ∷ (j, w) ∷ m
    | eq ↦ (k, v) ∷ m
    | gt ↦ (j, w) ∷ insert k v m
  ]

  pub get-insert :
      (j k : K) (v : V) (m : OrdMap K V)
      → get j (insert k v m) ≡ (if same k j then some v else get j m)
  unfolding get insert
  get-insert j k v [] = refl
  get-insert j k v ((i, w) ∷ m) =
      ground (arith, same_iff i j, same_iff k j, o.equal k i, o.itself k, get-insert j k v m)

  pub get-insert_self : (k : K) (v : V) (m : OrdMap K V) → get k (insert k v m) ≡ some v
  get-insert_self k v m = rw (get-insert k k v m, same_self k)

  pub get-insert_ne : (j k : K) (v : V) (m : OrdMap K V) → k ≢ j → get j (insert k v m) ≡ get j m
  get-insert_ne j k v m h = ground (arith, get-insert j k v m, same_iff k j)

  pub contains_key-insert :
      (j k : K) (v : V) (m : OrdMap K V)
      → contains_key j (insert k v m) ≡ (if same k j then true else contains_key j m)
  unfolding contains_key insert
  contains_key-insert j k v [] = refl
  contains_key-insert j k v ((i, w) ∷ m) =
      ground
        (arith, same_iff i j, same_iff k j, o.equal k i, o.itself k, contains_key-insert j k v m)

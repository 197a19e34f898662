-- ===== src/OrdMap/Remove.antt =====
-- `remove`, which takes out the entry of a key. The keys of a map are distinct, so that taking out
-- every entry of the key is the same.
use p2p_transmission.Prelude.{◌≡◌, refl, not, ◌&&◌, if◌then◌else◌, none, [], ◌∷◌, arith}
use p2p_transmission.OrdMap.Order.{Order, same, same_iff, same_self}
use p2p_transmission.OrdMap.Map.{OrdMap, get, contains_key}

module _ {K V : Type 0} ⦃o : Order K⦄ where
  unfoldable pub remove : K → OrdMap K V → OrdMap K V
  remove k [] = []
  remove k ((j, v) ∷ m) = let rest = remove k m in if same j k then rest else (j, v) ∷ rest

  pub get-remove :
      (j k : K) (m : OrdMap K V) → get j (remove k m) ≡ (if same k j then none else get j m)
  unfolding get remove
  get-remove j k [] = ground arith
  get-remove j k ((i, w) ∷ m) =
      ground (arith, same_iff i j, same_iff k j, same_iff i k, same_self k, get-remove j k m)

  pub contains_key-remove :
      (j k : K) (m : OrdMap K V)
      → contains_key j (remove k m) ≡ (contains_key j m && not (same k j))
  unfolding contains_key remove
  contains_key-remove j k [] = refl
  contains_key-remove j k ((i, w) ∷ m) =
      ground
        (arith, same_iff i j, same_iff k j, same_iff i k, same_self k, contains_key-remove j k m)

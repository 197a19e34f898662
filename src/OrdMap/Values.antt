-- ===== src/OrdMap/Values.antt =====
-- `values().any`, `values_mut` and `iter_mut().find`.
use Prim.Native.Nat.Ordering.{lt}
use mathlib.Core.Option
use p2p_transmission.Prelude.{
  ◌≡◌, refl, Bool, true, false, ◌||◌, if◌then◌else◌, Option, none, some, [], ◌∷◌, All, arith,
  Bool-cases, inl, inr,
}
use p2p_transmission.OrdMap.Order.{Order, same_iff}
use p2p_transmission.OrdMap.Map.{OrdMap, get}
use p2p_transmission.OrdMap.Sorted.{Sorted}

module _ {K V : Type 0} where
  -- Does some value pass the test?
  unfoldable pub any_value : (V → Bool) → OrdMap K V → Bool
  any_value p [] = false
  any_value p ((k, v) ∷ m) = p v || any_value p m

  -- The first entry, in key order, whose value passes the test.
  unfoldable pub find_value : (V → Bool) → OrdMap K V → Option (K × V)
  find_value p [] = none
  find_value p ((k, v) ∷ m) = if p v then some (k, v) else find_value p m

  unfoldable pub map_values : (V → V) → OrdMap K V → OrdMap K V
  map_values f [] = []
  map_values f ((k, v) ∷ m) = (k, f v) ∷ map_values f m

  pub All-map_values {ℓ κ} :
      (P : K × V → Type ℓ) (Q : K × V → Type κ) (f : V → V) (m : OrdMap K V)
      → ((k : K) (v : V) → P (k, v) → Q (k, f v))
      → All P m
      → All Q (map_values f m)
  unfolding map_values
  All-map_values P Q f [] h a = tt
  All-map_values P Q f ((k, v) ∷ m) h a = (h k v a.0, All-map_values P Q f m h a.1)

  pub All-mono {ℓ κ} :
      (P : K × V → Type ℓ) (Q : K × V → Type κ) (m : OrdMap K V)
      → ((k : K) (v : V) → P (k, v) → Q (k, v))
      → All P m
      → All Q m
  All-mono P Q [] h a = tt
  All-mono P Q ((k, v) ∷ m) h a = (h k v a.0, All-mono P Q m h a.1)

  -- What `find_value` finds passes the test and has the property of all entries.
  pub find_value-All {ℓ} :
      (P : K × V → Type ℓ) (p : V → Bool) (m : OrdMap K V) {k : K} {v : V}
      → All P m
      → find_value p m ≡ some (k, v)
      → P (k, v) × (p v ≡ true)
  unfolding find_value
  find_value-All P p [] a e = absurd cc
  find_value-All P p ((j, w) ∷ m) {k} {v} a e = elim (Bool-cases (p w)) [
    | inl hit ↦ ground arith
    | inr miss ↦ find_value-All P p m a.1 (ground arith)
  ]

  pub find_value-test :
      (p : V → Bool) (m : OrdMap K V) {k : K} {v : V} → find_value p m ≡ some (k, v) → p v ≡ true
  unfolding find_value
  find_value-test p [] e = absurd cc
  find_value-test p ((j, w) ∷ m) {k} {v} e = ground (arith, find_value-test p m {k = k} {v = v})

module _ {K V : Type 0} ⦃o : Order K⦄ where
  pub map_values-Sorted : (f : V → V) (m : OrdMap K V) → Sorted m → Sorted (map_values f m)
  unfolding map_values
  map_values-Sorted f [] s = tt
  map_values-Sorted f ((k, v) ∷ m) s = (
    All-map_values (λ p. o.cmp k p.0 ≡ lt) (λ p. o.cmp k p.0 ≡ lt) f m (λ _ _ h. h) s.0,
    map_values-Sorted f m s.1,
  )

  pub get-map_values :
      (f : V → V) (k : K) (m : OrdMap K V) → get k (map_values f m) ≡ Option.map f (get k m)
  unfolding map_values get
  get-map_values f k [] = refl
  get-map_values f k ((j, v) ∷ m) = ground (arith, get-map_values f k m)

  -- In a map an entry that `find_value` finds is the one that a lookup of its key finds.
  pub find_value-get :
      (p : V → Bool) (m : OrdMap K V) {k : K} {v : V}
      → Sorted m
      → find_value p m ≡ some (k, v)
      → get k m ≡ some v
  unfolding find_value get
  find_value-get p [] s e = absurd cc
  find_value-get p ((j, w) ∷ m) {k} {v} s e = elim (Bool-cases (p w)) [
    | inl hit ↦ ground (arith, same_iff j k)
    | inr miss ↦
        let f : find_value p m ≡ some (k, v) = ground arith in
        ground (
          arith,
          find_value-get p m s.1 f,
          (find_value-All (λ q. o.cmp j q.0 ≡ lt) p m s.0 f).0,
          same_iff j k,
          o.itself k,
        )
  ]

  pub any_value-get :
      (p : V → Bool) (k : K) (m : OrdMap K V) {v : V}
      → any_value p m ≡ false
      → get k m ≡ some v
      → p v ≡ false
  unfolding any_value get
  any_value-get p k [] a e = absurd cc
  any_value-get p k ((j, w) ∷ m) {v} a e = ground (arith, any_value-get p k m {v = v})

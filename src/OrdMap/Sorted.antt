-- ===== src/OrdMap/Sorted.antt =====
-- The order of the entries: a map is a list that ascends strictly, so the list is determined by
-- the lookups, and rebuilding a map from its entries gives the same list.
use Prim.Native.Nat.Ordering.{lt}
use p2p_transmission.Prelude.{
  ◌≡◌, refl, none, some, [], ◌∷◌, ◌++◌, All, arith, subst, inl, inr, Bool-cases,
}
use p2p_transmission.OrdMap.Order.{Order, same, same_iff}
use p2p_transmission.OrdMap.Map.{OrdMap, get, insert}

module _ {K V : Type 0} ⦃o : Order K⦄ where
  -- `k` is below every key.
  abbrev pub Below : K → OrdMap K V → Type 0
  Below k m = All (λ p. o.cmp k p.0 ≡ lt) m

  abbrev pub Sorted : OrdMap K V → Type 0
  Sorted [] = Unit {0}
  Sorted (p ∷ m) = Below p.0 m × Sorted m

  pub Below-trans : (j k : K) (m : OrdMap K V) → o.cmp j k ≡ lt → Below k m → Below j m
  Below-trans j k [] h b = tt
  Below-trans j k (p ∷ m) h b = (o.chain j k p.0 h b.0, Below-trans j k m h b.1)

  pub All-insert {ℓ} :
      (P : K × V → Type ℓ) (k : K) (v : V) (m : OrdMap K V)
      → All P m
      → P (k, v)
      → All P (insert k v m)
  unfolding insert
  All-insert P k v [] a p = (p, tt)
  All-insert P k v ((j, w) ∷ m) a p = ground (arith, All-insert P k v m a.1 p)

  pub insert-Sorted : (k : K) (v : V) (m : OrdMap K V) → Sorted m → Sorted (insert k v m)
  unfolding insert
  insert-Sorted k v [] s = (tt, tt)
  insert-Sorted k v ((j, w) ∷ m) s = ground (
    arith,
    o.equal k j,
    o.flips k j,
    Below-trans k j m,
    All-insert (λ p. o.cmp j p.0 ≡ lt) k v m,
    insert-Sorted k v m,
  )

  -- Whatever a lookup finds has the property of all entries.
  pub All-get {ℓ} :
      (P : K × V → Type ℓ) (k : K) (m : OrdMap K V) {v : V} → All P m → get k m ≡ some v → P (k, v)
  unfolding get
  All-get P k [] a e = absurd cc
  All-get P k ((j, w) ∷ m) {v} a e = elim (Bool-cases (same j k)) [
    | inl hit ↦ subst P (ground (arith, (same_iff j k).0 hit)) a.0
    | inr miss ↦ All-get P k m a.1 (ground arith)
  ]

  All-last {ℓ} :
      (P : K × V → Type ℓ) (m : OrdMap K V) (k : K) (v : V) (rest : OrdMap K V)
      → All P (m ++ (k, v) ∷ rest)
      → P (k, v)
  All-last P [] k v rest a = a.0
  All-last P (p ∷ m) k v rest a = All-last P m k v rest a.1

  pub Sorted-append_last :
      (m : OrdMap K V) (k : K) (v : V) (rest : OrdMap K V)
      → Sorted (m ++ (k, v) ∷ rest)
      → (get k m ≡ none) × (insert k v m ≡ m ++ (k, v) ∷ [])
  unfolding get insert
  Sorted-append_last [] k v rest s = (refl, refl)
  Sorted-append_last ((j, w) ∷ m) k v rest s = ground (
    arith,
    All-last (λ p. o.cmp j p.0 ≡ lt) m k v rest s.0,
    o.flips j k,
    o.itself k,
    same_iff j k,
    Sorted-append_last m k v rest s.1,
  )

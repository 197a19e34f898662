-- ===== src/OrdMap/Order.antt =====
-- The bound `K: Ord` with the laws that the trait asks of `cmp`, and its instances for numbers,
-- texts and pairs.
use Prim.Native.Nat.Ordering.{lt, eq, gt}
use p2p_transmission.Prelude.{
  ℕ, compare, Ordering, ◌≡◌, refl, ◌↔◌, Bool, true, false, [], ◌∷◌, arith,
}
use p2p_transmission.Prelude.Text.{Text}

-- The order read from its other side.
abbrev pub flip : Ordering → Ordering
flip lt = gt
flip eq = eq
flip gt = lt

pub record Order (K : Type 0) : Type 0 where
  pub cmp : K → K → Ordering
  pub chain : (x y z : K) → cmp x y ≡ lt → cmp y z ≡ lt → cmp x z ≡ lt
  pub flips : (x y : K) → cmp y x ≡ flip (cmp x y)
  pub itself : (x : K) → cmp x x ≡ eq
  pub equal : (x y : K) → cmp x y ≡ eq → x ≡ y

-- `a == b`, which agrees with `cmp`.
abbrev pub is_eq : Ordering → Bool
is_eq eq = true
is_eq _ = false

module _ {K : Type 0} ⦃o : Order K⦄ where
  unfoldable pub same : K → K → Bool
  same a b = is_eq (o.cmp a b)

  pub same_iff : (a b : K) → (same a b ≡ true) ↔ (a ≡ b)
  unfolding same
  same_iff a b = (λ h. ground (arith, o.equal a b), λ h. ground (arith, o.itself a, o.itself b))

  pub same_self : (a : K) → same a a ≡ true
  same_self a = (same_iff a a).1 refl

pub compare-chain : (a b c : ℕ) → compare a b ≡ lt → compare b c ≡ lt → compare a c ≡ lt
compare-chain a b c h k = ground arith

pub compare-itself : (a : ℕ) → compare a a ≡ eq
compare-itself a = ground arith

pub compare-equal : (a b : ℕ) → compare a b ≡ eq → a ≡ b
compare-equal a b h = ground arith

pub compare-flips : (a b : ℕ) → compare b a ≡ flip (compare a b)
compare-flips a b = ground arith

instance abbrev pub nat_order : Order ℕ
nat_order = record {
  cmp = compare;
  chain = compare-chain;
  flips = compare-flips;
  itself = compare-itself;
  equal = compare-equal;
}

-- The rest decides after equal heads only.
abbrev pub decided_by : Ordering → Ordering → Ordering
decided_by lt rest = lt
decided_by gt rest = gt
decided_by eq rest = rest

unfoldable pub text_cmp : Text → Text → Ordering
text_cmp [] [] = eq
text_cmp [] (d ∷ t) = lt
text_cmp (c ∷ s) [] = gt
text_cmp (c ∷ s) (d ∷ t) = decided_by (compare c d) (text_cmp s t)

pub text_cmp-chain : (s t u : Text) → text_cmp s t ≡ lt → text_cmp t u ≡ lt → text_cmp s u ≡ lt
unfolding text_cmp
text_cmp-chain [] [] u h k = cc
text_cmp-chain [] (d ∷ t) [] h k = cc
text_cmp-chain [] (d ∷ t) (e ∷ u) h k = refl
text_cmp-chain (c ∷ s) [] u h k = cc
text_cmp-chain (c ∷ s) (d ∷ t) [] h k = cc
text_cmp-chain (c ∷ s) (d ∷ t) (e ∷ u) h k = ground (arith, text_cmp-chain s t u)

pub text_cmp-flips : (s t : Text) → text_cmp t s ≡ flip (text_cmp s t)
unfolding text_cmp
text_cmp-flips [] [] = refl
text_cmp-flips [] (d ∷ t) = refl
text_cmp-flips (c ∷ s) [] = refl
text_cmp-flips (c ∷ s) (d ∷ t) = ground (arith, text_cmp-flips s t)

pub text_cmp-itself : (s : Text) → text_cmp s s ≡ eq
unfolding text_cmp
text_cmp-itself [] = refl
text_cmp-itself (c ∷ s) = ground (arith, text_cmp-itself s)

pub text_cmp-equal : (s t : Text) → text_cmp s t ≡ eq → s ≡ t
unfolding text_cmp
text_cmp-equal [] [] h = refl
text_cmp-equal [] (d ∷ t) h = cc
text_cmp-equal (c ∷ s) [] h = cc
text_cmp-equal (c ∷ s) (d ∷ t) h = ground (arith, text_cmp-equal s t)

instance abbrev pub text_order : Order Text
text_order = record {
  cmp = text_cmp;
  chain = text_cmp-chain;
  flips = text_cmp-flips;
  itself = text_cmp-itself;
  equal = text_cmp-equal;
}

module _ {A B : Type 0} ⦃a : Order A⦄ ⦃b : Order B⦄ where
  abbrev pub pair_cmp : A × B → A × B → Ordering
  pair_cmp (w, x) (y, z) = decided_by (a.cmp w y) (b.cmp x z)

  pub pair_cmp-chain : (p q r : A × B) → pair_cmp p q ≡ lt → pair_cmp q r ≡ lt → pair_cmp p r ≡ lt
  pair_cmp-chain (u, v) (w, x) (y, z) h k =
      ground (arith, a.chain u w y, a.equal u w, a.equal w y, a.itself u, b.chain v x z)

  pub pair_cmp-flips : (p q : A × B) → pair_cmp q p ≡ flip (pair_cmp p q)
  pair_cmp-flips (w, x) (y, z) = ground (arith, a.flips w y, b.flips x z)

  pub pair_cmp-itself : (p : A × B) → pair_cmp p p ≡ eq
  pair_cmp-itself (w, x) = ground (arith, a.itself w, b.itself x)

  pub pair_cmp-equal : (p q : A × B) → pair_cmp p q ≡ eq → p ≡ q
  pair_cmp-equal (w, x) (y, z) h = ground (arith, a.equal w y, b.equal x z)

  instance abbrev pub pair_order : Order (A × B)
  pair_order = record {
    cmp = pair_cmp;
    chain = pair_cmp-chain;
    flips = pair_cmp-flips;
    itself = pair_cmp-itself;
    equal = pair_cmp-equal;
  }

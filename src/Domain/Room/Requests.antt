-- ===== src/Domain/Room/Requests.antt =====
-- The life of a join request: its decision is final, a session has at most one that is pending,
-- and nobody who is a member has one.
use p2p_transmission.Prelude.{
  ◌≡◌, refl, true, false, Option, none, some, arith, inl, inr, subst, Bool-cases, ◌∙◌, List, [],
  ◌∷◌,
}
use p2p_transmission.OrdMap.Map.{get, insert, get-insert}
use p2p_transmission.OrdMap.Values.{find_value-get, find_value-test, get-map_values}
use p2p_transmission.OrdMap.Order.{text_order, same, same_iff}
use p2p_transmission.Domain.Ids.{SessionId, RequestId}
use p2p_transmission.Domain.Room.State.{pending, JoinRequest, RoomCommand, Room, is_pending}
use p2p_transmission.Domain.Room.Commands.{is_pending_of, expire_pending, handle}
use p2p_transmission.Domain.Room.Effect.{
  Transition, requested, admitted, turned_away, request_lapsed, attached, detached, closed,
  departed, withdrawn, lapsed,
}
use p2p_transmission.Domain.Room.Invariant.{IsValid}
use p2p_transmission.Domain.Room.Preservation.{run, handle-IsValid}
use p2p_transmission.Domain.Room.Replies.{handle_rule}

-- The request is still stored, for the same session and deadline, and unchanged once decided.
abbrev pub KeepsRequest : JoinRequest → Option JoinRequest → Type 0
KeepsRequest q none = ⊥
KeepsRequest q (some q') =
    (q'.session_id ≡ q.session_id)
    × (q'.expires_at ≡ q.expires_at)
    × (is_pending q.state ≡ false → q' ≡ q)

-- A pending request is written anew with another state.
decided-KeepsRequest :
    (r : Room) (j : RequestId) (q₀ q₁ : JoinRequest) (k : RequestId) (q : JoinRequest)
    → get j r.join_requests ≡ some q₀
    → is_pending q₀.state ≡ true
    → q₁.session_id ≡ q₀.session_id
    → q₁.expires_at ≡ q₀.expires_at
    → get k r.join_requests ≡ some q
    → KeepsRequest q (get k (insert j q₁ r.join_requests))
decided-KeepsRequest r j q₀ q₁ k q g p s d h = elim (Bool-cases (same j k)) [
  | inl hit ↦
      rw (get-insert k j q₁ r.join_requests, hit)
        (
          ground (arith, same_iff j k),
          ground (arith, same_iff j k),
          λ n. absurd (absurd_pending n hit),
        )
  | inr miss ↦ rw (get-insert k j q₁ r.join_requests, miss, h) (refl, refl, λ n. refl)
]
  where
    absurd_pending : is_pending q.state ≡ false → same j k ≡ true → ⊥
    absurd_pending n hit = ground (arith, same_iff j k)

kept-KeepsRequest : (q : JoinRequest) (o : Option JoinRequest) → o ≡ some q → KeepsRequest q o
kept-KeepsRequest q o e = rw e (refl, refl, λ n. refl)

is_pending_of-pending :
    (s : SessionId) (q : JoinRequest)
    → is_pending_of s q ≡ true
    → (q.session_id ≡ s) × (is_pending q.state ≡ true)
is_pending_of-pending s q h = ground (arith, same_iff q.session_id s)

module _ {r : Room} (v : IsValid r) (k : RequestId) (q : JoinRequest)
    (h : get k r.join_requests ≡ some q) where
  Transition-KeepsRequest :
      {r' : Room} {c : RoomCommand} → Transition r c r' → KeepsRequest q (get k r'.join_requests)
  Transition-KeepsRequest (requested {k = j} {s = s} {deadline = d} l a b g m n) =
      kept-KeepsRequest q _ (
        ground (
          arith,
          get-insert k j (record { session_id = s; expires_at = d; state = pending })
              r.join_requests,
          same_iff j k,
        ))
  Transition-KeepsRequest (admitted {k = j} q₀ l a g t e) =
      decided-KeepsRequest r j q₀ _ k q g (ground arith) refl refl h
  Transition-KeepsRequest (turned_away {k = j} q₀ l a g t e) =
      decided-KeepsRequest r j q₀ _ k q g (ground arith) refl refl h
  Transition-KeepsRequest (request_lapsed {k = j} q₀ l g t e) =
      decided-KeepsRequest r j q₀ _ k q g (ground arith) refl refl h
  Transition-KeepsRequest (attached m l g a b) = kept-KeepsRequest q _ h
  Transition-KeepsRequest (detached m g e) = kept-KeepsRequest q _ h
  Transition-KeepsRequest (closed e a) = kept-KeepsRequest q _ h
  Transition-KeepsRequest (departed m e g a) = kept-KeepsRequest q _ h
  Transition-KeepsRequest (withdrawn {s = s} j q₀ e g f) =
      decided-KeepsRequest r j q₀ _ k q
        (find_value-get (is_pending_of s) r.join_requests v.requests_sorted f)
        (is_pending_of-pending s q₀ (find_value-test (is_pending_of s) r.join_requests f)).1 refl
        refl h
  Transition-KeepsRequest (lapsed a d) =
      rw (get-map_values expire_pending k r.join_requests, h)
        (ground arith, ground arith, λ n. ground arith)

  handle-KeepsRequest : (c : RoomCommand) → KeepsRequest q (get k (handle r c).0.join_requests)
  handle-KeepsRequest c =
      handle_rule (λ x. KeepsRequest q (get k x.join_requests)) r c (kept-KeepsRequest q _ h)
        (λ r' t. Transition-KeepsRequest t) (λ r' n p. p)

KeepsRequest-trans :
    (q q' : JoinRequest) (o : Option JoinRequest)
    → KeepsRequest q (some q')
    → KeepsRequest q' o
    → KeepsRequest q o
KeepsRequest-trans q q' none a b = b
KeepsRequest-trans q q' (some q'') a b =
    (b.0 ∙ a.0, b.1 ∙ a.1, λ n. b.2 (ground (arith, a.2 n)) ∙ a.2 n)

KeepsRequest-some :
    (q : JoinRequest) (o : Option JoinRequest)
    → KeepsRequest q o
    → (q' : JoinRequest) × (o ≡ some q')
KeepsRequest-some q none a = absurd a
KeepsRequest-some q (some q') a = (q', refl)

-- In a well-formed room, under any commands, a stored request keeps its session and deadline, and a
-- decision is final.
pub run-KeepsRequest :
    (r : Room) (cs : List RoomCommand) (k : RequestId) (q : JoinRequest)
    → IsValid r
    → get k r.join_requests ≡ some q
    → KeepsRequest q (get k (run r cs).join_requests)
unfolding run
run-KeepsRequest r [] k q v h = kept-KeepsRequest q _ h
run-KeepsRequest r (c ∷ cs) k q v h =
    let keeps = handle-KeepsRequest v k q h c in
    let (q', e) = KeepsRequest-some q _ keeps in
    KeepsRequest-trans q q' _ (subst (KeepsRequest q) e keeps)
      (run-KeepsRequest (handle r c).0 cs k q' (handle-IsValid r c v) e)

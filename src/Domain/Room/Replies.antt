-- ===== src/Domain/Room/Replies.antt =====
-- What a reply of `handle` says of the room that it leaves: the rule for properties of the room,
-- truthful outcomes, and replays.
use p2p_transmission.Prelude.{
  ℕ, ◌<◌, ◌+◌, ◌≡◌, refl, Bool, true, false, arith, ok, err, inl, inr, sym, ap, subst,
  if◌then◌else◌, ◌∙◌,
}
use p2p_transmission.Prelude.Words.{u64_max}
use p2p_transmission.OrdMap.Map.{get-insert_self}
use p2p_transmission.OrdMap.Order.{text_order, same_iff, same_self}
use p2p_transmission.Domain.Room.State.{
  offline, online, pending, approved, rejected, RoomCommand, RoomCommandOutcome, Room,
  request_expired, leave,
}
use p2p_transmission.Domain.Room.Commands.{
  Reply, unchanged, commit, handle, do_request_join, do_decide_join, do_expire_join_request,
  do_attach, do_detach, do_expire,
}
use p2p_transmission.Domain.Room.Cases.{commit_cases}
use p2p_transmission.Domain.Room.Effect.{
  Effect, Transition, refused, kept, moved, requested, admitted, turned_away, request_lapsed,
  attached, detached, closed, departed, withdrawn, lapsed, handle-Effect,
}

Effect_rule :
    (P : Room → Type 0) {r : Room} {c : RoomCommand} {y : Reply}
    → P r
    → ((r' : Room) → Transition r c r' → P r')
    → ((r' : Room) (n : ℕ) → P r' → P (record r' { revision = n }))
    → Effect r c y
    → P y.0
Effect_rule P start step count (refused e h) = start
Effect_rule P start step count kept = start
Effect_rule P start step count (moved {r' = r'} t) = elim (commit_cases r') [
  | inl (_, e) ↦ subst (λ (y : Reply). P y.0) (sym e) (count r' (r'.revision + 1) (step r' t))
  | inr (_, e) ↦ subst (λ (y : Reply). P y.0) (sym e) (step r' t)
]

-- A property of rooms that no transition and no count of the revision breaks holds after `handle`.
pub handle_rule :
    (P : Room → Type 0) (r : Room) (c : RoomCommand)
    → P r
    → ((r' : Room) → Transition r c r' → P r')
    → ((r' : Room) (n : ℕ) → P r' → P (record r' { revision = n }))
    → P (handle r c).0
handle_rule P r c start step count = Effect_rule P start step count (handle-Effect r c)

-- The fields that no command touches.
pub record SameIdentity (r r' : Room) : Type 0 where
  pub same_id : r'.id ≡ r.id
  pub same_code : r'.code ≡ r.code
  pub same_owner : r'.owner_id ≡ r.owner_id
  pub same_deadline : r'.expires_at ≡ r.expires_at

Transition-SameIdentity : {r r' : Room} {c : RoomCommand} → Transition r c r' → SameIdentity r r'
Transition-SameIdentity (requested l a b g m n) = record {
  same_id = refl;
  same_code = refl;
  same_owner = refl;
  same_deadline = refl;
}
Transition-SameIdentity _ = record {
  same_id = refl;
  same_code = refl;
  same_owner = refl;
  same_deadline = refl;
}

Transition-revision : {r r' : Room} {c : RoomCommand} → Transition r c r' → r'.revision ≡ r.revision
Transition-revision (requested l a b g m n) = refl
Transition-revision _ = refl

-- A reply tells the truth about the room: an error or an unchanged outcome leaves it as it was,
-- and a changed outcome counts one revision and keeps the identity of the room.
abbrev pub IsTruthful : Room → Reply → Type 0
IsTruthful r (r', err e) = r' ≡ r
IsTruthful r (r', ok o) =
    if o.changed then SameIdentity r r' × (r'.revision ≡ r.revision + 1) else r' ≡ r

moved-IsTruthful :
    {r r' : Room} {c : RoomCommand}
    → r.revision < u64_max
    → Transition r c r'
    → IsTruthful r (commit r')
moved-IsTruthful {r} {r'} h t = elim (commit_cases r') [
  | inl (_, e) ↦ rw e (
    record {
      same_id = i.same_id;
      same_code = i.same_code;
      same_owner = i.same_owner;
      same_deadline = i.same_deadline;
    },
    ap (λ (n : ℕ). n + 1) (Transition-revision t),
  )
  | inr (full, _) ↦ absurd (omega (arith, Transition-revision t))
]
  where
    i : SameIdentity r r'
    i = Transition-SameIdentity t

Effect-IsTruthful :
    {r : Room} {c : RoomCommand} {y : Reply} → r.revision < u64_max → Effect r c y → IsTruthful r y
Effect-IsTruthful h (refused e _) = refl
Effect-IsTruthful h kept = refl
Effect-IsTruthful h (moved t) = moved-IsTruthful h t

-- If the revision of the room is below the last one, an error or an unchanged outcome of `handle`
-- leaves the room as it was, and a changed outcome counts one revision and keeps the id, the code, the
-- owner and the deadline of the room.
pub handle-IsTruthful :
    (r : Room) (c : RoomCommand) → r.revision < u64_max → IsTruthful r (handle r c)
handle-IsTruthful r c h = Effect-IsTruthful h (handle-Effect r c)

-- The commands whose replay is promised to change nothing.
abbrev pub is_replayable : RoomCommand → Bool
is_replayable (leave _) = false
is_replayable _ = true

Transition-replay :
    {r r' : Room} {c : RoomCommand} (n : ℕ)
    → is_replayable c ≡ true
    → Transition r c r'
    → handle (record r' { revision = n }) c ≡ unchanged (record r' { revision = n })
unfolding handle do_request_join do_decide_join do_expire_join_request do_attach do_detach do_expire
Transition-replay {r} n h (requested {k} {s} {deadline = deadline} l a b g m e) = ground (
  arith,
  get-insert_self k (record { session_id = s; expires_at = deadline; state = pending })
      r.join_requests,
  same_self s,
)
Transition-replay {r} n h (admitted {k} {actor} q l a g t e) = ground (
  arith,
  get-insert_self k (record q { state = approved }) r.join_requests,
  same_iff actor r.owner_id,
)
Transition-replay {r} n h (turned_away {k} {actor} q l a g t e) = ground (
  arith,
  get-insert_self k (record q { state = rejected }) r.join_requests,
  same_iff actor r.owner_id,
)
Transition-replay {r} n h (request_lapsed {k} q l g t e) =
    ground (arith, get-insert_self k (record q { state = request_expired }) r.join_requests)
Transition-replay {r} n h (attached {s} {p} m l g a b) =
    ground (arith, get-insert_self s (record m { state = online p }) r.memberships, same_self p)
Transition-replay {r} n h (detached {s} m g e) =
    ground (arith, get-insert_self s (record m { state = offline }) r.memberships)
Transition-replay n h (closed e a) = absurd cc
Transition-replay n h (departed m e g a) = absurd cc
Transition-replay n h (withdrawn k q e g f) = absurd cc
Transition-replay n h (lapsed a t) = refl

Effect-replay :
    {r r' : Room} {c : RoomCommand} {o : RoomCommandOutcome} {y : Reply}
    → is_replayable c ≡ true
    → Effect r c y
    → handle r c ≡ y
    → y ≡ (r', ok o)
    → handle r' c ≡ unchanged r'
Effect-replay h (refused e _) done same_reply = absurd cc
Effect-replay {c = c} h kept done same_reply =
    subst (λ (x : Room). handle x c ≡ unchanged x) (ap (λ (y : Reply). y.0) same_reply) done
Effect-replay {c = c} h (moved {r' = r₁} t) done same_reply = elim (commit_cases r₁) [
  | inl (_, e) ↦
      subst (λ (x : Room). handle x c ≡ unchanged x) (ap (λ (y : Reply). y.0) (sym e ∙ same_reply))
        (Transition-replay (r₁.revision + 1) h t)
  | inr (_, e) ↦ absurd cc
]

-- A command that was accepted, other than `leave`, is accepted again and changes nothing more.
pub handle-replay :
    (r r' : Room) (c : RoomCommand) (o : RoomCommandOutcome)
    → is_replayable c ≡ true
    → handle r c ≡ (r', ok o)
    → handle r' c ≡ unchanged r'
handle-replay r r' c o h e = Effect-replay h (handle-Effect r c) refl e

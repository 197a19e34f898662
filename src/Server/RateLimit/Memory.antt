-- ===== src/Server/RateLimit/Memory.antt =====
-- How many keys the limiter keeps.
use p2p_transmission.Prelude.{
  ℕ, ◌+◌, ◌≤◌, ◌<◌, ◌≡◌, refl, true, false, ◌==◌, ◌||◌, leb, List, [], ◌∷◌, length, arith,
  Bool-cases, inl, inr, ◌⊎◌,
}
use p2p_transmission.Prelude.Text.{Text}
use p2p_transmission.OrdMap.Map.{insert, get, contains_key}
use p2p_transmission.OrdMap.Sorted.{Sorted, Below, Below-trans, insert-Sorted}
use p2p_transmission.OrdMap.Order.{text_order, same}
use p2p_transmission.Server.RateLimit.{
  RateLimiter, RateWindow, RatePolicy, max_tracked_keys, entry_key, retain_open, count_request,
  current_window, admit, needs_room, make_room, check,
}
use p2p_transmission.Server.RateLimit.Window.{Call, check_call}

length-insert_le :
    (k : Text) (v : RateWindow) (m : RateLimiter) → length (insert k v m) ≤ length m + 1
unfolding insert
length-insert_le k v [] = omega arith
length-insert_le k v ((j, w) ∷ m) = ground (arith, length-insert_le k v m)

length-retain_open : (now : ℕ) (m : RateLimiter) → length (retain_open now m) ≤ length m
unfolding retain_open
length-retain_open now [] = omega arith
length-retain_open now ((j, w) ∷ m) = ground (arith, length-retain_open now m)

Below-absent : (k : Text) (m : RateLimiter) → Below k m → contains_key k m ≡ false
unfolding contains_key same
Below-absent k [] b = refl
Below-absent k ((j, w) ∷ m) b = ground (arith, text_order.flips k j, Below-absent k m b.1)

length-insert_present :
    (k : Text) (v : RateWindow) (m : RateLimiter)
    → Sorted m
    → contains_key k m ≡ true
    → length (insert k v m) ≡ length m
unfolding insert contains_key same
length-insert_present k v [] s h = cc
length-insert_present k v ((j, w) ∷ m) s h = ground (
  arith,
  text_order.flips k j,
  length-insert_present k v m s.1,
  Below-absent k m,
  Below-trans k j m,
)

Below-retain_open : (now : ℕ) (k : Text) (m : RateLimiter) → Below k m → Below k (retain_open now m)
unfolding retain_open
Below-retain_open now k [] b = tt
Below-retain_open now k ((j, w) ∷ m) b = ground (arith, Below-retain_open now k m b.1)

retain_open-Sorted : (now : ℕ) (m : RateLimiter) → Sorted m → Sorted (retain_open now m)
unfolding retain_open
retain_open-Sorted now [] s = tt
retain_open-Sorted now ((j, w) ∷ m) s =
    ground (arith, retain_open-Sorted now m s.1, Below-retain_open now j m s.0)

-- One entry for each key, and not more than allowed.
pub record IsBounded (entries : RateLimiter) : Type 0 where
  pub sorted : Sorted entries
  pub few : length entries ≤ max_tracked_keys

admit-IsBounded :
    (entries : RateLimiter) (key : Text) (policy : RatePolicy) (now : ℕ)
    → IsBounded entries
    → (contains_key key entries ≡ true) ⊎ (length entries < max_tracked_keys)
    → IsBounded (admit entries key policy now).0
unfolding admit
admit-IsBounded entries key policy now b o =
    count-IsBounded (current_window policy now (get key entries))
  where
    insert-IsBounded : (v : RateWindow) → IsBounded (insert key v entries)
    insert-IsBounded v = record {
      sorted = insert-Sorted key v entries b.sorted;
      few = elim o [
        | inl present ↦ omega (arith, length-insert_present key v entries b.sorted present, b.few)
        | inr room ↦ omega (arith, length-insert_le key v entries)
      ];
    }

    count-IsBounded : (w : RateWindow) → IsBounded (count_request entries key policy w).0
    count-IsBounded w = elim (Bool-cases (leb policy.max_requests w.count)) [
      | inl full ↦ rw full (insert-IsBounded w)
      | inr room ↦ rw room (insert-IsBounded _)
    ]

check-IsBounded :
    (entries : RateLimiter) (c : Call) → IsBounded entries → IsBounded (check_call entries c).0
unfolding check make_room
check-IsBounded entries c b =
    let key = entry_key c.bucket c.key in
    let kept : IsBounded (retain_open c.now entries) = record {
      sorted = retain_open-Sorted c.now entries b.sorted;
      few = omega (arith, length-retain_open c.now entries, b.few);
    } in
    elim (Bool-cases (c.policy.max_requests == 0 || c.policy.window_ms == 0)) [
      | inl off ↦ rw off b
      | inr on ↦ elim (Bool-cases (needs_room entries key)) [
        | inr room ↦
            rw (on, room)
              (admit-IsBounded entries key c.policy c.now b
                (elim (Bool-cases (contains_key key entries)) [
                  | inl present ↦ inl present
                  | inr absent ↦ inr (ground arith)
                ]))
        | inl crowded ↦
            elim (Bool-cases (leb max_tracked_keys (length (retain_open c.now entries)))) [
              | inl full ↦ rw (on, crowded, full) kept
              | inr room ↦
                  rw (on, crowded, room)
                    (admit-IsBounded (retain_open c.now entries) key c.policy c.now kept
                      (inr (ground arith)))
            ]
      ]
    ]

-- The limiter after some calls.
abbrev pub after : RateLimiter → List Call → RateLimiter
after entries [] = entries
after entries (c ∷ rest) = after (check_call entries c).0 rest

run-IsBounded :
    (entries : RateLimiter) (calls : List Call)
    → IsBounded entries
    → IsBounded (after entries calls)
run-IsBounded entries [] b = b
run-IsBounded entries (c ∷ rest) b =
    run-IsBounded (check_call entries c).0 rest (check-IsBounded entries c b)

-- Whatever calls a new limiter answers, it keeps one window for each key and at most 10,000 keys.
pub after-IsBounded : (calls : List Call) → IsBounded (after [] calls)
after-IsBounded calls = run-IsBounded [] calls (record { sorted = tt; few = omega arith })

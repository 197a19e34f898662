-- ===== src/Server/RateLimit/Window.antt =====
-- How many requests a window admits.
use p2p_transmission.Prelude.{
  ℕ, ◌+◌, ◌≤◌, ◌<◌, ◌≡◌, ap, ◌∙◌, Bool, true, false, ◌==◌, ◌&&◌, ◌||◌, leb, if◌then◌else◌, List, [],
  ◌∷◌, All, length, some, arith, Bool-cases, inl, inr,
}
use p2p_transmission.Prelude.Text.{Text}
use p2p_transmission.OrdMap.Map.{get, insert, get-insert}
use p2p_transmission.OrdMap.Order.{text_order, same, same_iff}
use p2p_transmission.Server.RateLimit.{
  RatePolicy, RateWindow, RateLimiter, max_tracked_keys, entry_key, retain_open, count_request,
  admit, needs_room, make_room, check,
}

-- The arguments of one call of `check`.
pub record Call : Type 0 where
  pub bucket : Text
  pub key : Text
  pub policy : RatePolicy
  pub now : ℕ

abbrev pub call_key : Call → Text
call_key c = entry_key c.bucket c.key

abbrev pub check_call : RateLimiter → Call → RateLimiter × Bool
check_call entries c = check entries c.bucket c.key c.policy c.now

abbrev pub counts : Text → Call → Bool → ℕ
counts k c accepted = if same (call_key c) k && accepted then 1 else 0

-- How many of the calls with the key `k` are accepted.
abbrev pub admitted : Text → RateLimiter → List Call → ℕ
admitted k entries [] = 0
admitted k entries (c ∷ rest) =
    let answer = check_call entries c in counts k c answer.1 + admitted k answer.0 rest

-- A call inside the window, with a limit of at most `limit` where it is about the key.
pub record IsInside (k : Text) (limit : ℕ) (w : RateWindow) (c : Call) : Type 0 where
  pub in_time : c.now < w.resets_at_ms
  pub limited : call_key c ≡ k → c.policy.max_requests ≤ limit

get-retain_open :
    (now : ℕ) (k : Text) (w : RateWindow) (entries : RateLimiter)
    → get k entries ≡ some w
    → now < w.resets_at_ms
    → get k (retain_open now entries) ≡ some w
unfolding get retain_open
get-retain_open now k w [] h l = cc
get-retain_open now k w ((j, v) ∷ rest) h l = ground (arith, get-retain_open now k w rest)

-- The window of the key after a call: `n` more requests are counted.
abbrev pub IsCounted : Text → RateWindow → ℕ → RateLimiter → Type 0
IsCounted k w n entries =
    get k entries ≡ some (record { count = w.count + n; resets_at_ms = w.resets_at_ms })

abbrev pub IsStep : Text → ℕ → RateWindow → Call → RateLimiter × Bool → Type 0
IsStep k limit w c answer =
    IsCounted k w (counts k c answer.1) answer.0 × (w.count + counts k c answer.1 ≤ limit)

-- A refused call that leaves the window as it was.
refused-IsStep :
    (k : Text) (limit : ℕ) (w : RateWindow) (c : Call) (entries : RateLimiter)
    → get k entries ≡ some w
    → w.count ≤ limit
    → IsStep k limit w c (entries, false)
refused-IsStep k limit w c entries h l =
    let none_counted : counts k c false ≡ 0 = ground arith in
    (
      h
          ∙ ap (λ (n : ℕ). some (record { count = n; resets_at_ms = w.resets_at_ms }))
              (omega (arith, none_counted)),
      omega (arith, none_counted, l),
    )

-- An accepted call of the key.
accepted-IsStep :
    (k : Text) (limit : ℕ) (w : RateWindow) (c : Call) (entries : RateLimiter)
    → get k entries ≡ some (record { count = w.count + 1; resets_at_ms = w.resets_at_ms })
    → same (call_key c) k ≡ true
    → w.count < limit
    → IsStep k limit w c (entries, true)
accepted-IsStep k limit w c entries h mine l =
    let one_counted : counts k c true ≡ 1 = ground arith in
    (
      h
          ∙ ap (λ (n : ℕ). some (record { count = n; resets_at_ms = w.resets_at_ms }))
              (omega (arith, one_counted)),
      omega (arith, one_counted, l),
    )

-- An accepted call of another key.
other-IsStep :
    (k : Text) (limit : ℕ) (w : RateWindow) (c : Call) (entries : RateLimiter)
    → get k entries ≡ some w
    → same (call_key c) k ≡ false
    → w.count ≤ limit
    → IsStep k limit w c (entries, true)
other-IsStep k limit w c entries h other l =
    let none_counted : counts k c true ≡ 0 = ground arith in
    (
      h
          ∙ ap (λ (n : ℕ). some (record { count = n; resets_at_ms = w.resets_at_ms }))
              (omega (arith, none_counted)),
      omega (arith, none_counted, l),
    )

count_other-IsStep :
    (k : Text) (limit : ℕ) (w : RateWindow) (c : Call) (entries : RateLimiter) (v : RateWindow)
    → get k entries ≡ some w
    → same (call_key c) k ≡ false
    → w.count ≤ limit
    → IsStep k limit w c (count_request entries (call_key c) c.policy v)
count_other-IsStep k limit w c entries v h other l =
    elim (Bool-cases (leb c.policy.max_requests v.count)) [
      | inl full ↦ rw full (refused-IsStep k limit w c (insert (call_key c) v entries) (kept v) l)
      | inr room ↦ rw room (
          other-IsStep k limit w c (insert (call_key c) (record v { count = v.count + 1 }) entries)
            (kept _) other l)
    ]
  where
    kept : (x : RateWindow) → get k (insert (call_key c) x entries) ≡ some w
    kept x = ground (arith, get-insert k (call_key c) x entries)

count_own-IsStep :
    (k : Text) (limit : ℕ) (w : RateWindow) (c : Call) (entries : RateLimiter)
    → same (call_key c) k ≡ true
    → w.count ≤ limit
    → c.policy.max_requests ≤ limit
    → IsStep k limit w c (count_request entries (call_key c) c.policy w)
count_own-IsStep k limit w c entries mine l m =
    elim (Bool-cases (leb c.policy.max_requests w.count)) [
      | inl full ↦ rw full (refused-IsStep k limit w c (insert (call_key c) w entries) (stored w) l)
      | inr room ↦ rw room (
          accepted-IsStep k limit w c
            (insert (call_key c) (record w { count = w.count + 1 }) entries) (stored _) mine
            (ground arith))
    ]
  where
    stored : (x : RateWindow) → get k (insert (call_key c) x entries) ≡ some x
    stored x = ground (arith, get-insert k (call_key c) x entries)

admit-IsStep :
    (k : Text) (limit : ℕ) (w : RateWindow) (c : Call) (entries : RateLimiter)
    → get k entries ≡ some w
    → w.count ≤ limit
    → IsInside k limit w c
    → IsStep k limit w c (admit entries (call_key c) c.policy c.now)
unfolding admit
admit-IsStep k limit w c entries h l i = elim (Bool-cases (same (call_key c) k)) [
  | inl mine ↦
      let e : call_key c ≡ k = (same_iff (call_key c) k).0 mine in
      let o : leb w.resets_at_ms c.now ≡ false = ground (arith, i.in_time) in
      let g : get (call_key c) entries ≡ some w = ap (λ (x : Text). get x entries) e ∙ h in
      rw (g, o) (count_own-IsStep k limit w c entries mine l (i.limited e))
  | inr other ↦ count_other-IsStep k limit w c entries _ h other l
]

check-IsStep :
    (k : Text) (limit : ℕ) (w : RateWindow) (c : Call) (entries : RateLimiter)
    → get k entries ≡ some w
    → w.count ≤ limit
    → IsInside k limit w c
    → IsStep k limit w c (check_call entries c)
unfolding check make_room
check-IsStep k limit w c entries h l i =
    let kept = get-retain_open c.now k w entries h i.in_time in
    elim (Bool-cases (c.policy.max_requests == 0 || c.policy.window_ms == 0)) [
      | inl off ↦ rw off (refused-IsStep k limit w c entries h l)
      | inr on ↦ elim (Bool-cases (needs_room entries (call_key c))) [
        | inr room ↦ rw (on, room) (admit-IsStep k limit w c entries h l i)
        | inl crowded ↦
            elim (Bool-cases (leb max_tracked_keys (length (retain_open c.now entries)))) [
              | inl full ↦
                  rw (on, crowded, full)
                    (refused-IsStep k limit w c (retain_open c.now entries) kept l)
              | inr room ↦
                  rw (on, crowded, room)
                    (admit-IsStep k limit w c (retain_open c.now entries) kept l i)
            ]
      ]
    ]

-- If the window of a key has a count within a limit, and all calls come before its end, those with
-- its key with at most that limit, then the count and the accepted calls with its key stay together
-- within the limit, whatever calls of other keys come between.
pub admitted-le :
    (k : Text) (limit : ℕ) (w : RateWindow) (entries : RateLimiter) (calls : List Call)
    → get k entries ≡ some w
    → w.count ≤ limit
    → All (IsInside k limit w) calls
    → w.count + admitted k entries calls ≤ limit
admitted-le k limit w entries [] h l i = omega (arith, l)
admitted-le k limit w entries (c ∷ rest) h l i =
    let (stored, fits) = check-IsStep k limit w c entries h l i.0 in
    let later =
      admitted-le k limit
        (record {
          count = w.count + counts k c (check_call entries c).1;
          resets_at_ms = w.resets_at_ms;
        })
        (check_call entries c).0 rest stored fits (still _ rest i.1) in
    omega (arith, later)
  where
    still :
        (n : ℕ) (calls : List Call)
        → All (IsInside k limit w) calls
        → All (IsInside k limit (record { count = n; resets_at_ms = w.resets_at_ms })) calls
    still n [] a = tt
    still n (d ∷ ds) a = (record { in_time = a.0.in_time; limited = a.0.limited }, still n ds a.1)

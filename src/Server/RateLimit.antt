-- ===== src/Server/RateLimit.antt =====
-- rust/apps/server/src/rate_limit.rs: fixed windows of requests, one for each key. The lock that
-- `check` holds makes it one step on the entries. The order of the `HashMap` is never read, so it is
-- a map with keys in order.
pub mod Window
pub mod Memory
use p2p_transmission.Prelude.{
  ℕ, ◌+◌, Bool, true, false, not, ◌==◌, ◌&&◌, ◌||◌, ltb, leb, if◌then◌else◌, List, [], ◌∷◌, ◌++◌,
  length, Option, none, some,
}
use p2p_transmission.Prelude.Text.{Text, text}
use p2p_transmission.Prelude.Words.{saturating_add}
use p2p_transmission.OrdMap.Map.{OrdMap, get, insert, contains_key}
use p2p_transmission.OrdMap.Order.{text_order}

abbrev pub max_tracked_keys : ℕ
max_tracked_keys = 10_000

pub record RatePolicy : Type 0 where
  pub max_requests : ℕ
  pub window_ms : ℕ

pub record RateWindow : Type 0 where
  pub count : ℕ
  pub resets_at_ms : ℕ

abbrev pub RateLimiter : Type 0
RateLimiter = OrdMap Text RateWindow

-- `format!("{bucket}:{key}")`.
abbrev pub entry_key : Text → Text → Text
entry_key bucket key = bucket ++ b':' ∷ key

-- `retain(|_, window| window.resets_at_ms > now_ms)`.
unfoldable pub retain_open : ℕ → RateLimiter → RateLimiter
retain_open now [] = []
retain_open now ((key, window) ∷ rest) =
    if ltb now window.resets_at_ms
    then (key, window) ∷ retain_open now rest
    else retain_open now rest

abbrev pub new_window : RatePolicy → ℕ → RateWindow
new_window policy now = record { count = 0; resets_at_ms = saturating_add now policy.window_ms }

-- `entry(..).or_insert(..)`, reset where its time is over.
abbrev pub current_window : RatePolicy → ℕ → Option RateWindow → RateWindow
current_window policy now none = new_window policy now
current_window policy now (some window) =
    if leb window.resets_at_ms now then new_window policy now else window

-- The count of a request, from the entry on.
abbrev pub count_request : RateLimiter → Text → RatePolicy → RateWindow → RateLimiter × Bool
count_request entries key policy window =
    if leb policy.max_requests window.count
    then (insert key window entries, false)
    else (insert key (record window { count = window.count + 1 }) entries, true)

unfoldable pub admit : RateLimiter → Text → RatePolicy → ℕ → RateLimiter × Bool
admit entries key policy now =
    count_request entries key policy (current_window policy now (get key entries))

-- No key is added while as many as allowed are open.
abbrev pub needs_room : RateLimiter → Text → Bool
needs_room entries key = leb max_tracked_keys (length entries) && not (contains_key key entries)

unfoldable pub make_room : RateLimiter → Text → RatePolicy → ℕ → RateLimiter × Bool
unfolding admit
make_room entries key policy now =
    if leb max_tracked_keys (length (retain_open now entries))
    then (retain_open now entries, false)
    else admit (retain_open now entries) key policy now

unfoldable pub check : RateLimiter → Text → Text → RatePolicy → ℕ → RateLimiter × Bool
unfolding admit make_room
check entries bucket key policy now =
    if policy.max_requests == 0 || policy.window_ms == 0
    then (entries, false)
    else if needs_room entries (entry_key bucket key)
    then make_room entries (entry_key bucket key) policy now
    else admit entries (entry_key bucket key) policy now

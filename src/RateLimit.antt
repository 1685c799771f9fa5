-- ===== src/RateLimit.antt =====
-- ratelimit/ratelimit.go: the sliding window limiter. A time and a duration are numbers of nanoseconds,
-- and the mutex makes each operation one step.
use mv_chat.Prelude.{
  ℕ, zero, suc, ◌+◌, ◌-◌, ◌*◌, List, [], ◌∷◌, ◌++◌, Bool, true, false, Text, ltb, leb, ◌==◌, ℤ, pos,
  negsuc, Slices, entry, erase, assign, is_empty, if◌then◌else◌, length, select,
}
pub mod Window
pub mod Limit
pub mod History
mod Tests

pub record Limiter : Type 0 where
  pub requests : Slices
  pub limit : ℤ
  pub window : ℕ
  pub cleanup_interval : ℕ
  pub last_cleanup : ℕ

pub record Config : Type 0 where
  pub limit : ℤ
  pub window : ℕ
  pub cleanup_interval : ℕ

unfoldable pub new_with_config : ℕ → Config → Limiter
new_with_config now cfg = record {
  requests = [];
  limit = cfg.limit;
  window = cfg.window;
  cleanup_interval = if cfg.cleanup_interval == 0 then cfg.window * 10 else cfg.cleanup_interval;
  last_cleanup = now;
}

unfoldable pub new : ℕ → ℤ → ℕ → Limiter
new now limit window =
    new_with_config now (record { limit = limit; window = window; cleanup_interval = 0 })

-- t.After(now.Add(-window))
abbrev pub is_recent : ℕ → ℕ → ℕ → Bool
is_recent window now t = ltb now (t + window)

-- len(valid) >= limit
abbrev pub reaches : ℕ → ℤ → Bool
reaches n (pos limit) = leb limit n
reaches n (negsuc limit) = true

unfoldable pub cleanup : ℕ → ℕ → Slices → Slices
cleanup window now [] = []
cleanup window now ((key, times) ∷ rest) =
    let valid = select (is_recent window now) times in
    if is_empty valid then cleanup window now rest else (key, valid) ∷ cleanup window now rest

-- The periodic cleanup at the head of `Allow`.
unfoldable pub cleaned : ℕ → Limiter → Limiter
cleaned now l =
    if ltb (l.last_cleanup + l.cleanup_interval) now
    then record l { requests = cleanup l.window now l.requests; last_cleanup = now }
    else l

-- `Allow` after the cleanup.
unfoldable pub admit : ℕ → Text → Limiter → Bool × Limiter
admit now key l =
    let valid = select (is_recent l.window now) (entry key l.requests) in
    let stored = assign key valid l.requests in
    if reaches (length valid) l.limit
    then (false, record l { requests = stored })
    else (true, record l { requests = assign key (valid ++ now ∷ []) stored })

unfoldable pub allow : ℕ → Text → Limiter → Bool × Limiter
allow now key l = admit now key (cleaned now l)

unfoldable pub remaining : ℕ → Text → Limiter → ℕ
remaining now key l =
    let count = length (select (is_recent l.window now) (entry key l.requests)) in
    elim l.limit [ pos limit ↦ limit - count | negsuc limit ↦ 0 ]

unfoldable pub reset : Text → Limiter → Limiter
reset key l = record l { requests = erase key l.requests }

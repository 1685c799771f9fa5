-- ===== src/RateLimit/History.antt =====
-- Histories of calls of `Allow` (ratelimit/ratelimit.go).
use mv_chat.Prelude.{
  ℕ, ◌≤◌, ◌≡◌, refl, ap, subst, ◌∙◌, List, [], ◌∷◌, not, Text, arith, entry, select,
}
use mv_chat.RateLimit.{Limiter, Config, new_with_config, reaches, allow}
use mv_chat.RateLimit.Window.{count_recent, granted, cap, Tracks, logged}
use mv_chat.RateLimit.Limit.{allow-step, allow-config}

-- A call of `Allow`.
pub record Call : Type 0 where
  pub time : ℕ
  pub key : Text

-- The clock does not go back.
abbrev pub InOrder : ℕ → List Call → Type 0
InOrder last [] = Unit
InOrder last (c ∷ cs) = (last ≤ c.time) × InOrder c.time cs

abbrev pub last_time : ℕ → List Call → ℕ
last_time last [] = last
last_time last (c ∷ cs) = last_time c.time cs

-- The log and the limiter after the calls.
unfoldable pub run : List Call → List (Text × ℕ) → Limiter → List (Text × ℕ) × Limiter
run [] log l = (log, l)
run (c ∷ cs) log l =
    let (answer, l') = allow c.time c.key l in run cs (logged answer c.key c.time log) l'

run-Tracks :
    (last : ℕ) (cs : List Call) (log : List (Text × ℕ)) (l : Limiter)
    → InOrder last cs
    → Tracks last log l
    → Tracks (last_time last cs) (run cs log l).0 (run cs log l).1
unfolding run
run-Tracks last [] log l order v = v
run-Tracks last (c ∷ cs) log l order v =
    run-Tracks c.time cs _ _ order.1 (allow-step last c.time c.key log l order.0 v).1

run-config :
    (cs : List Call) (log : List (Text × ℕ)) (l : Limiter)
    → ((run cs log l).1.window ≡ l.window) × ((run cs log l).1.limit ≡ l.limit)
unfolding run
run-config [] log l = (refl, refl)
run-config (c ∷ cs) log l =
    let (w, m) =
      run-config cs (logged (allow c.time c.key l).0 c.key c.time log) (allow c.time c.key l).1 in
    let (w', m') = allow-config c.time c.key l in (w ∙ w', m ∙ m')

new-Tracks : (now : ℕ) (cfg : Config) → Tracks now [] (new_with_config now cfg)
unfolding new_with_config entry select
new-Tracks now cfg = record {
  one = tt;
  counted = λ key t later. refl;
  within = λ key t later. omega arith;
}

new-config :
    (now : ℕ) (cfg : Config)
    → ((new_with_config now cfg).window ≡ cfg.window)
      × ((new_with_config now cfg).limit ≡ cfg.limit)
unfolding new_with_config
new-config now cfg = (refl, refl)

-- After any calls of a fresh limiter under a clock that does not go back, no more requests of a key
-- have been allowed in the window that ends at the last call or later than the limit that was
-- configured (none, if that limit is negative).
pub run-limit :
    (start : ℕ) (cfg : Config) (cs : List Call) (key : Text) (t : ℕ)
    → InOrder start cs
    → last_time start cs ≤ t
    → count_recent cfg.window t (granted key (run cs [] (new_with_config start cfg)).0)
      ≤ cap cfg.limit
run-limit start cfg cs key t order later =
    let l = new_with_config start cfg in
    let v = run-Tracks start cs [] l order (new-Tracks start cfg) in
    let (w, m) = run-config cs [] l in
    subst (λ n. n ≤ cap cfg.limit)
      (ap (λ x. count_recent x t (granted key (run cs [] l).0)) (w ∙ (new-config start cfg).0))
      (subst (λ n. count_recent (run cs [] l).1.window t (granted key (run cs [] l).0) ≤ cap n)
        (m ∙ (new-config start cfg).1) (v.within key t later))

-- After any calls of a fresh limiter under a clock that does not go back, a further call is denied
-- exactly if the requests of its key that were allowed in the window that ends then have reached the
-- limit: the calls that were denied, the other keys and the cleanup play no part.
pub run-exact :
    (start : ℕ) (cfg : Config) (cs : List Call) (c : Call)
    → InOrder start cs
    → last_time start cs ≤ c.time
    → (allow c.time c.key (run cs [] (new_with_config start cfg)).1).0
      ≡ not (
          reaches
            (count_recent cfg.window c.time
              (granted c.key (run cs [] (new_with_config start cfg)).0))
            cfg.limit)
run-exact start cfg cs c order later =
    let l = new_with_config start cfg in
    let v = run-Tracks start cs [] l order (new-Tracks start cfg) in
    let (w, m) = run-config cs [] l in
    (allow-step (last_time start cs) c.time c.key (run cs [] l).0 (run cs [] l).1 later v).0
    ∙ rw (w ∙ (new-config start cfg).0, m ∙ (new-config start cfg).1) refl

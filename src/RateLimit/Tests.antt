-- ===== src/RateLimit/Tests.antt =====
-- A limiter of two requests in 10 nanoseconds (ratelimit/ratelimit.go), under four calls of one key.
use mv_chat.Prelude.{
  ℕ, ◌≤◌, ◌≡◌, refl, List, [], ◌∷◌, not, Text, pos, arith, entry, assign, erase, select,
}
use mv_chat.RateLimit.{Config, new_with_config, reaches, allow, admit, cleaned}
use mv_chat.RateLimit.Window.{count_recent, granted}
use mv_chat.RateLimit.History.{Call, InOrder, run, run-limit, run-exact}

abbrev config : Config
config = record { limit = pos 2; window = 10; cleanup_interval = 0 }

abbrev ann : Text
ann = 97 ∷ []

abbrev call_at : ℕ → Call
call_at t = record { time = t; key = ann }

abbrev calls : List Call
calls = call_at 101 ∷ call_at 104 ∷ call_at 105 ∷ call_at 112 ∷ []

calls-InOrder : InOrder 100 calls
calls-InOrder = (omega arith, (omega arith, (omega arith, (omega arith, tt))))

-- The third call is denied; the fourth finds that the first has left the window.
run_test : granted ann (run calls [] (new_with_config 100 config)).0 ≡ 112 ∷ 104 ∷ 101 ∷ []
unfolding run allow admit cleaned new_with_config entry assign erase select
run_test = refl

run-limit_example :
    count_recent 10 112 (granted ann (run calls [] (new_with_config 100 config)).0) ≤ 2
run-limit_example = run-limit 100 config calls ann 112 calls-InOrder (omega arith)

run-exact_example :
    (allow 113 ann (run calls [] (new_with_config 100 config)).1).0
    ≡ not (
        reaches
          (count_recent 10 113 (granted ann (run calls [] (new_with_config 100 config)).0))
          (pos 2))
run-exact_example = run-exact 100 config calls (call_at 113) calls-InOrder (omega arith)

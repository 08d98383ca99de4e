-- ===== src/Samples/Calls.antt =====
-- Purge calls of a provider, and turns of its rate limiter.
use mirror_mirage.Prelude.{
  ℕ, ◌==◌, if◌then◌else◌, ◌≡◌, refl, ◌≤◌, ◌<◌, List, [], ◌∷◌, ◌++◌, arith, count,
}
use mirror_mirage.Text.{codes}
use mirror_mirage.Config.{Seconds}
use mirror_mirage.Worker.{PurgeResult}
use mirror_mirage.Providers.{Reply, classify, status, combine, Token, token}
use mirror_mirage.Providers.Verdict.{Explains, combine-Explains}
use mirror_mirage.Providers.Limiter.{Limiter, turn, admitted, waits, turns, start, drop_old}
use mirror_mirage.Providers.Limiter.Window.{in_window, admissions-le-capacity}
use mirror_mirage.Providers.Limiter.Waiting.{turn-waits}

abbrev mixed : List PurgeResult
mixed = classify (status 200) ∷ classify (status 503) ∷ classify (status 404) ∷ []

combine-Explains_example : Explains mixed (combine mixed)
combine-Explains_example = combine-Explains mixed

-- Two calls in each 60 ticks.
abbrev two_per_minute : Limiter
two_per_minute = record { capacity = 2; window_seconds = 60 }

abbrev times : List Seconds
times = 10 ∷ 20 ∷ 30 ∷ 70 ∷ 75 ∷ 80 ∷ []

admissions-le-capacity_example :
    count (in_window 60 75) (turns two_per_minute times start).admissions ≤ 2
admissions-le-capacity_example = admissions-le-capacity two_per_minute times 75 (ground arith)

third_call_waits : turn two_per_minute 30 (10 ∷ 20 ∷ []) ≡ waits 40 (10 ∷ 20 ∷ [])
unfolding turn drop_old
third_call_waits = refl

turn-waits_example :
    (0 < 40)
    × (rest : List Seconds) × (turn two_per_minute 70 (10 ∷ 20 ∷ []) ≡ admitted (rest ++ 70 ∷ []))
turn-waits_example =
    turn-waits two_per_minute 30 40 (10 ∷ 20 ∷ []) (10 ∷ 20 ∷ []) (omega arith) third_call_waits

-- The first call is accepted, the second meets a busy service.
abbrev two_calls : ℕ → Token × Reply
two_calls i = (token (codes "t"), if i == 0 then status 200 else status 503)

-- ===== src/Providers/Limiter.antt =====
-- `_SlidingWindowLimiter` of src/mirror_mirage/providers/gcp.py. One turn of `acquire` under the
-- lock is a function of the clock and of `_calls`, oldest first.
pub mod Window
pub mod Waiting
use mirror_mirage.Prelude.{
  ℕ, ◌+◌, ◌-◌, Bool, true, false, List, [], ◌∷◌, ◌++◌, ltb, leb, length, if◌then◌else◌,
}
use mirror_mirage.Config.{Seconds}

pub record Limiter : Type 0 where
  pub capacity : ℕ
  pub window_seconds : Seconds

-- A turn admits the call, or waits and tries again, or raises IndexError.
pub data Turn : Type 0 where
  admitted : List Seconds → Turn
  waits : Seconds → List Seconds → Turn
  index_error : Turn

-- `while self._calls and self._calls[0] <= cutoff: popleft()`, with `cutoff + window == now`
unfoldable pub drop_old : Seconds → Seconds → List Seconds → List Seconds
drop_old window now [] = []
drop_old window now (c ∷ cs) =
    let rest = drop_old window now cs in if leb (c + window) now then rest else c ∷ cs

-- `oldest = self._calls[0]`; `max(0.0, …)` is the subtraction that stops at 0.
abbrev wait_for_oldest : Seconds → Seconds → List Seconds → Turn
wait_for_oldest window now [] = index_error
wait_for_oldest window now (oldest ∷ cs) = waits (oldest + window - now) (oldest ∷ cs)

abbrev admit_or_wait : Limiter → Seconds → List Seconds → Turn
admit_or_wait l now calls =
    if ltb (length calls) l.capacity
    then admitted (calls ++ now ∷ [])
    else wait_for_oldest l.window_seconds now calls

-- One turn of `acquire()` at the time `now`
unfoldable pub turn : Limiter → Seconds → List Seconds → Turn
turn l now calls = admit_or_wait l now (drop_old l.window_seconds now calls)

-- What callers have been told, in the order of their turns: the times of the admissions, newest
-- first, and the deque.
pub record History : Type 0 where
  pub admissions : List Seconds
  pub calls : List Seconds

abbrev after_turn : Seconds → Turn → History → History
after_turn now (admitted calls) h = record { admissions = now ∷ h.admissions; calls = calls }
after_turn now (waits d calls) h = record h { calls = calls }
after_turn now index_error h = h

-- Turns of any callers, at the times of the list.
unfoldable pub turns : Limiter → List Seconds → History → History
unfolding turn
turns l [] h = h
turns l (now ∷ times) h = turns l times (after_turn now (turn l now h.calls) h)

abbrev pub start : History
start = record { admissions = []; calls = [] }

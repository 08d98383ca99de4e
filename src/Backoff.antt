-- ===== src/Backoff.antt =====
-- `exponential_backoff` of src/mirror_mirage/queue.py.
use Prim.Native.Nat.{min}
use native.Mathlib.Nat.{pow-suc}
use mirror_mirage.Prelude.{
  ℕ, suc, ◌-◌, ◌*◌, ◌^◌, ◌≤◌, ◌<◌, ◌≡◌, refl, sym, ◌∙◌, ap, arith, ltb, leb, if◌then◌else◌,
}
use mirror_mirage.Outcome.{value_inj, Outcome, value, raised, value_error, overflow_error}
use mirror_mirage.Config.{Seconds}

-- The exponents from which `2 ** n` has no float: `initial * 2 ** n` raises OverflowError.
abbrev pub float_exponents : ℕ
float_exponents = 1024

unfoldable pub exponential_backoff : ℕ → Seconds → Seconds → Outcome Seconds
exponential_backoff attempts initial ceiling =
    if ltb attempts 1
    then raised value_error
    else if leb float_exponents (attempts - 1)
    then raised overflow_error
    else value (min (initial * 2 ^ (attempts - 1)) ceiling)

pub exponential_backoff_value :
    (n : ℕ) (initial ceiling : Seconds)
    → n < 1024
    → exponential_backoff (suc n) initial ceiling ≡ value (min (initial * 2 ^ n) ceiling)
unfolding exponential_backoff
exponential_backoff_value n initial ceiling h =
    let e : suc n - 1 ≡ n = omega arith in rw e (ground arith)

-- From attempt 1025 on the call raises OverflowError, whatever the ceiling.
exponential_backoff_overflow :
    (n : ℕ) (initial ceiling : Seconds)
    → 1024 ≤ n
    → exponential_backoff (suc n) initial ceiling ≡ raised overflow_error
unfolding exponential_backoff
exponential_backoff_overflow n initial ceiling h =
    let e : suc n - 1 ≡ n = omega arith in rw e (ground arith)

-- The first delay is the initial one, and each later one, up to attempt 1024, twice the one before,
-- all cut at the ceiling; attempt 0 is refused.
exponential_backoff_doubles :
    (n : ℕ) (initial ceiling d : Seconds)
    → suc n < 1024
    → exponential_backoff (suc n) initial ceiling ≡ value d
    → (exponential_backoff 0 initial ceiling ≡ raised value_error)
      × (exponential_backoff 1 initial ceiling ≡ value (min initial ceiling))
      × (exponential_backoff (suc (suc n)) initial ceiling ≡ value (min (2 * d) ceiling))
      × (d ≤ ceiling)
exponential_backoff_doubles n initial ceiling d h e =
    let same : value (min (initial * 2 ^ n) ceiling) ≡ value d =
      sym (exponential_backoff_value n initial ceiling (omega arith)) ∙ e in
    let d_eq : min (initial * 2 ^ n) ceiling ≡ d = value_inj same in
    (
      unfold exponential_backoff in refl,
      exponential_backoff_value 0 initial ceiling (omega arith) ∙ ap value (omega arith),
      exponential_backoff_value (suc n) initial ceiling h
          ∙ rw (pow-suc 2 n) (ap value (omega (arith, d_eq))),
      omega arith,
    )

-- ===== src/Webhooks/Backoff.antt =====
-- internal/webhooks/service.go: `backoffFor`, in nanoseconds, and the test of the next attempt.
use spark_server.Base.{
  ℕ, zero, suc, ◌*◌, ◌^◌, ◌≤◌, ◌<◌, min, ◌≡◌, sym, ap, ◌∙◌, Bool, true, not, Option, none, some,
  if◌then◌else◌, ltb, leb, leb→le, arith, Bool-cases, inl, inr,
}
use native.Mathlib.Nat.{mul_assoc, pow-succ'}

abbrev pub minute : ℕ
minute = 60 * 10 ^ 9

abbrev pub hour : ℕ
hour = 3600 * 10 ^ 9

-- The loop, with the number of rounds left.
abbrev pub doubled : ℕ → ℕ → ℕ
doubled zero delay = delay
doubled (suc rounds) delay =
    let rest = doubled rounds (delay * 2) in if leb hour (delay * 2) then hour else rest

abbrev pub backoff_for : ℕ → ℕ
backoff_for zero = 0
backoff_for (suc failures) = doubled failures minute

-- Whether the time of the next attempt has come.
abbrev pub is_due : ℕ → Option ℕ → Bool
is_due time none = true
is_due time (some next) = not (ltb time next)

double_step : (a rounds : ℕ) → a * 2 ^ suc rounds ≡ a * 2 * 2 ^ rounds
double_step a rounds = ap (λ n. a * n) (pow-succ' 2 rounds) ∙ sym (mul_assoc a 2 (2 ^ rounds))

le_doubled : (a rounds : ℕ) → a ≤ a * 2 ^ rounds
le_doubled a zero = omega arith
le_doubled a (suc rounds) = omega (arith, le_doubled (a * 2) rounds, double_step a rounds)

doubled-min :
    (rounds delay : ℕ) → delay < hour → doubled rounds delay ≡ min (delay * 2 ^ rounds) hour
doubled-min zero delay h = omega arith
doubled-min (suc rounds) delay h = elim (Bool-cases (leb hour (delay * 2))) [
  | inl over ↦ rw over (
      omega (
        arith,
        le_doubled (delay * 2) rounds,
        leb→le hour (delay * 2) over,
        double_step delay rounds,
      ))
  | inr under ↦ rw under (
      doubled-min rounds (delay * 2) (ground arith)
      ∙ ap (λ n. min n hour) (sym (double_step delay rounds)))
]

-- After the first failure a webhook waits a minute, and after each further one twice as long, but
-- never more than an hour.
pub backoff_for-min : (failures : ℕ) → backoff_for (suc failures) ≡ min (minute * 2 ^ failures) hour
backoff_for-min failures = doubled-min failures minute (omega arith)

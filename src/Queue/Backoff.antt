-- ===== src/Queue/Backoff.antt =====
-- When a failed delivery is tried again.
use native.Mathlib.Nat.{pow-zero, pow-succ', mul-one, mul_assoc, one-le-pow}
use gotify_vps_agent.Prelude.{
  ℕ, zero, suc, ◌+◌, ◌*◌, ◌^◌, ◌≤◌, ◌<◌, min, ◌≡◌, inl, inr, Bool-cases, ◌&&◌, arith, ltb, leb,
  length,
}
use gotify_vps_agent.Prelude.Int.{pos, inc-pos}
use gotify_vps_agent.Clock.{Time, minute}
use gotify_vps_agent.Queue.{Queue, longest_delay, double_delay, mark_failure, ready}

doubled : (d n : ℕ) → d * 2 * 2 ^ n ≡ d * 2 ^ suc n
doubled d n = rw pow-succ' (mul_assoc d 2 (2 ^ n))

le-mul : (a b : ℕ) → 1 ≤ b → a ≤ a * b
le-mul a b h = grind arith

double_delay-min :
    (rounds delay : ℕ)
    → 0 < delay
    → min (double_delay rounds delay) longest_delay ≡ min (delay * 2 ^ rounds) longest_delay
unfolding double_delay
double_delay-min zero delay h = rw (pow-zero 2, mul-one delay)
double_delay-min (suc rounds) delay h = elim (Bool-cases (ltb delay longest_delay)) [
  | inl below ↦ ground (arith, below, double_delay-min rounds (delay * 2), doubled delay rounds)
  | inr above ↦
      ground (arith, above, le-mul delay (2 ^ suc rounds) (one-le-pow (suc rounds) 2 (omega arith)))
]

-- After a failed delivery that follows `n` others the next attempt is due 5 minutes later, doubled
-- `n` times but no more than 6 hours; before that time the queue is not ready, and from that time on
-- it is ready exactly if it holds an event. The events stay as they are.
pub ready-mark_failure :
    (q : Queue) (now later : Time) (n : ℕ)
    → q.attempts ≡ pos n
    → n < 9223372036854775807
    → let q' = mark_failure q now in
      (q'.next_attempt_at ≡ now + min (5 * minute * 2 ^ n) longest_delay)
      × (q'.attempts ≡ pos (n + 1))
      × (q'.events ≡ q.events)
      × (ready q' later
          ≡ (ltb 0 (length q.events) && leb (now + min (5 * minute * 2 ^ n) longest_delay) later))
unfolding mark_failure ready
ready-mark_failure q now later n a b = ground (
  arith,
  inc-pos n b,
  double_delay-min n (5 * minute) (omega arith),
  le-mul (5 * minute) (2 ^ n) (one-le-pow n 2 (omega arith)),
)

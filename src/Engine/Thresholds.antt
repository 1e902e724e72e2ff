-- ===== src/Engine/Thresholds.antt =====
-- How many results in a row it takes to raise an alert, and to end one.
use gotify_vps_agent.Prelude.{
  ℕ, suc, ◌+◌, ◌≤◌, ◌<◌, ◌≡◌, refl, true, false, List, [], ◌∷◌, arith, length, All, inl, append-nil,
  not, ◌&&◌, ◌⊎◌, ◌==◌, if◌then◌else◌,
}
use gotify_vps_agent.Prelude.Int.{pos, inc-pos}
use gotify_vps_agent.Prelude.Text.{Text}
use gotify_vps_agent.Clock.{Time}
use gotify_vps_agent.Model.{status_ok, Result, event_problem, event_recovery}
use gotify_vps_agent.Config.{Agent}
use gotify_vps_agent.State.{CheckState}
use gotify_vps_agent.Engine.{
  is_ok, succeeded, notified_of, evaluate_check, problem_event, new_event,
}
use gotify_vps_agent.Engine.History.{observe, kinds, IsPlain}
use gotify_vps_agent.Engine.Protocol.{evaluate_check-plain}

-- A failing result that is not immediate, of a check that the journal does not feed.
abbrev pub IsFailure : Result → Type 0
IsFailure r = IsPlain r × (is_ok r.status ≡ false) × (r.immediate ≡ false)

abbrev pub IsSuccess : Result → Type 0
IsSuccess r = IsPlain r × (is_ok r.status ≡ true)

-- An entry that has not been notified and has just seen `k` failures in a row.
abbrev pub Failing : ℕ → CheckState → Type 0
Failing k c =
    (c.notified ≡ false)
    × (((k ≡ 0) × (is_ok c.last_observed ≡ true))
        ⊎ ((is_ok c.last_observed ≡ false) × (c.consecutive_failures ≡ pos k)))

-- An entry of an open incident that has just seen `k` successes in a row.
abbrev pub Mending : ℕ → CheckState → Type 0
Mending k c =
    (c.notified ≡ true)
    × (is_ok c.current ≡ false)
    × (((k ≡ 0) × (is_ok c.last_observed ≡ false))
        ⊎ ((is_ok c.last_observed ≡ true) × (c.consecutive_successes ≡ pos k)))

module _ (hex_digest : Text → Text) (agent : Agent) (n : ℕ) where
  failure-below :
      (now : Time) (c : CheckState) (r : Result) (k : ℕ)
      → agent.warning_failures ≡ pos n
      → n < 9223372036854775807
      → IsFailure r
      → Failing k c
      → suc k < n
      → ((evaluate_check hex_digest agent now c r).1 ≡ [])
        × Failing (suc k) (evaluate_check hex_digest agent now c r).0
  unfolding notified_of
  failure-below now c r k w b f s l =
      rw (evaluate_check-plain hex_digest agent now c r f.0, f.1) (ground (arith, inc-pos k))

  failure-last :
      (now : Time) (c : CheckState) (r : Result) (k : ℕ)
      → agent.warning_failures ≡ pos n
      → n < 9223372036854775807
      → IsFailure r
      → Failing k c
      → suc k ≡ n
      → kinds (evaluate_check hex_digest agent now c r).1 ≡ event_problem ∷ []
  unfolding notified_of problem_event new_event
  failure-last now c r k w b f s l =
      rw (evaluate_check-plain hex_digest agent now c r f.0, f.1) (ground (arith, inc-pos k))

  failures-alert_from :
      (k : ℕ) (c : CheckState) (rs : List (Time × Result))
      → agent.warning_failures ≡ pos n
      → n < 9223372036854775807
      → All (λ tr. IsFailure tr.1) rs
      → Failing k c
      → k < n
      → k + length rs ≤ n
      → kinds (observe hex_digest agent c rs).1
        ≡ (if k + length rs == n then event_problem ∷ [] else [])
  unfolding observe
  failures-alert_from k c [] w b f s l m = ground arith
  failures-alert_from k c ((now, r) ∷ []) w b f s l m = ground (
    arith,
    append-nil (evaluate_check hex_digest agent now c r).1,
    failure-below now c r k w b f.0 s,
    failure-last now c r k w b f.0 s,
  )
  failures-alert_from k c ((now, r) ∷ tr ∷ rs) w b f s l m =
      let (none_yet, still) = failure-below now c r k w b f.0 s (omega arith) in
      rw none_yet (
        ground (
          arith,
          failures-alert_from (suc k) (evaluate_check hex_digest agent now c r).0 (tr ∷ rs) w b f.1
              still,
        ))

  -- From an entry that is not notified and whose last result was OK, a sequence of failing results
  -- (none of them immediate, of a check that is not fed by the journal, of whatever severities) no
  -- longer than `warning_failures` raises nothing, unless it is exactly that long: then it raises
  -- one notification, a problem.
  pub failures-alert :
      (c : CheckState) (rs : List (Time × Result))
      → agent.warning_failures ≡ pos n
      → 0 < n
      → n < 9223372036854775807
      → c.notified ≡ false
      → is_ok c.last_observed ≡ true
      → All (λ tr. IsFailure tr.1) rs
      → length rs ≤ n
      → kinds (observe hex_digest agent c rs).1
        ≡ (if length rs == n then event_problem ∷ [] else [])
  failures-alert c rs w p b s o f m =
      ground (arith, failures-alert_from 0 c rs w b f (s, inl (refl, o)))

module _ (hex_digest : Text → Text) (agent : Agent) (m : ℕ) where
  success-below :
      (now : Time) (c : CheckState) (r : Result) (k : ℕ)
      → agent.recovery_successes ≡ pos m
      → m < 9223372036854775807
      → IsSuccess r
      → Mending k c
      → suc k < m
      → ((evaluate_check hex_digest agent now c r).1 ≡ [])
        × Mending (suc k) (evaluate_check hex_digest agent now c r).0
  unfolding succeeded
  success-below now c r k w b f s l =
      rw (evaluate_check-plain hex_digest agent now c r f.0, f.1) (ground (arith, inc-pos k))

  success-last :
      (now : Time) (c : CheckState) (r : Result) (k : ℕ)
      → agent.recovery_successes ≡ pos m
      → m < 9223372036854775807
      → IsSuccess r
      → Mending k c
      → suc k ≡ m
      → (kinds (evaluate_check hex_digest agent now c r).1
          ≡ (if agent.notify_recovery then event_recovery ∷ [] else []))
        × ((evaluate_check hex_digest agent now c r).0.notified ≡ false)
        × ((evaluate_check hex_digest agent now c r).0.current ≡ status_ok)
  unfolding succeeded new_event
  success-last now c r k w b f s l =
      rw (evaluate_check-plain hex_digest agent now c r f.0, f.1) (ground (arith, inc-pos k))

  successes-recover_from :
      (k : ℕ) (c : CheckState) (rs : List (Time × Result))
      → agent.recovery_successes ≡ pos m
      → m < 9223372036854775807
      → All (λ tr. IsSuccess tr.1) rs
      → Mending k c
      → k < m
      → k + length rs ≤ m
      → let (c', es) = observe hex_digest agent c rs in
        let done = k + length rs == m in
        (kinds es ≡ (if done && agent.notify_recovery then event_recovery ∷ [] else []))
        × (c'.notified ≡ not done)
        × (is_ok c'.current ≡ done)
  unfolding observe
  successes-recover_from k c [] w b f s l e = ground arith
  successes-recover_from k c ((now, r) ∷ []) w b f s l e = ground (
    arith,
    append-nil (evaluate_check hex_digest agent now c r).1,
    success-below now c r k w b f.0 s,
    success-last now c r k w b f.0 s,
  )
  successes-recover_from k c ((now, r) ∷ tr ∷ rs) w b f s l e =
      let (none_yet, still) = success-below now c r k w b f.0 s (omega arith) in
      rw none_yet (
        ground (
          arith,
          successes-recover_from (suc k) (evaluate_check hex_digest agent now c r).0 (tr ∷ rs) w b
              f.1 still,
        ))

  -- From an entry of an open incident (notified, not OK, last result failing), a sequence of OK
  -- results no longer than `recovery_successes` leaves the incident open and raises nothing, unless
  -- it is exactly that long: then the incident is closed, with one recovery notification if these
  -- are enabled and with none if not.
  pub successes-recover :
      (c : CheckState) (rs : List (Time × Result))
      → agent.recovery_successes ≡ pos m
      → 0 < m
      → m < 9223372036854775807
      → c.notified ≡ true
      → is_ok c.current ≡ false
      → is_ok c.last_observed ≡ false
      → All (λ tr. IsSuccess tr.1) rs
      → length rs ≤ m
      → let (c', es) = observe hex_digest agent c rs in
        let done = length rs == m in
        (kinds es ≡ (if done && agent.notify_recovery then event_recovery ∷ [] else []))
        × (c'.notified ≡ not done)
        × (is_ok c'.current ≡ done)
  successes-recover c rs w p b s o q f e =
      ground (arith, successes-recover_from 0 c rs w b f (s, o, inl (refl, q)))

success-silent :
    (hex_digest : Text → Text) (agent : Agent) (now : Time) (c : CheckState) (r : Result)
    → IsSuccess r
    → c.notified ≡ false
    → let (c', es) = evaluate_check hex_digest agent now c r in (es ≡ []) × (c'.notified ≡ false)
unfolding succeeded
success-silent hex_digest agent now c r f s =
    rw (evaluate_check-plain hex_digest agent now c r f.0, f.1) (ground arith)

-- A check that is not notified, such as one that only the baseline has seen failing, raises nothing
-- as long as its results are OK: no recovery is told of a problem that was not told.
pub successes-silent :
    (hex_digest : Text → Text) (agent : Agent) (c : CheckState) (rs : List (Time × Result))
    → c.notified ≡ false
    → All (λ tr. IsSuccess tr.1) rs
    → let (c', es) = observe hex_digest agent c rs in (es ≡ []) × (c'.notified ≡ false)
unfolding observe
successes-silent hex_digest agent c [] s f = (refl, s)
successes-silent hex_digest agent c ((now, r) ∷ rs) s f =
    let (none_yet, still) = success-silent hex_digest agent now c r f.0 s in
    rw none_yet
      (successes-silent hex_digest agent (evaluate_check hex_digest agent now c r).0 rs still f.1)

-- ===== src/Storage/Crash.antt =====
-- A run that stops after the queue is saved and before the state is: the next run restores from the
-- queue what the state has lost.
use gotify_vps_agent.Prelude.{
  ◌≡◌, refl, ◌⊎◌, Bool, true, false, List, [], ◌∷◌, Option, none, some, arith, All,
}
use gotify_vps_agent.Prelude.Text.{Text}
use gotify_vps_agent.Clock.{Time, before}
use gotify_vps_agent.Model.{
  status_warning, status_critical, Result, event_problem, event_recovery, Event,
}
use gotify_vps_agent.Config.{Agent}
use gotify_vps_agent.State.{CheckState}
use gotify_vps_agent.Engine.{succeeded, notified_of, evaluate_check, problem_event, new_event}
use gotify_vps_agent.Engine.History.{observe, kinds, IsPlain}
use gotify_vps_agent.Engine.Protocol.{Phase, alerted, read, evaluate_check-plain, observe-read}
use gotify_vps_agent.Queue.{QueuedEvent}
use gotify_vps_agent.Storage.{restore_check}

abbrev pub queued : Event → Time → QueuedEvent
queued e now = record { event = e; created_at = now }

-- The restored entry is open or closed as the lost one was, with the status of the event.
abbrev pub IsRestored : Bool → CheckState → Event → Option CheckState → Type 0
IsRestored open_incident c e none = ⊥
IsRestored open_incident c e (some d) =
    (d.notified ≡ open_incident) × (d.current ≡ e.status) × (d.last_observed ≡ e.status)

module _ (hex_digest : Text → Text) (agent : Agent) (now : Time) (c : CheckState) (r : Result) where
  -- Suppose a run raises a problem for a check not fed by the journal, with status WARNING or
  -- CRITICAL, and stops once the queue is saved; and suppose the check has not recovered at that
  -- time or later. Then the next run restores from the queued event an open entry with the status of
  -- the event.
  pub crash-problem :
      (e : Event)
      → IsPlain r
      → (r.status ≡ status_warning) ⊎ (r.status ≡ status_critical)
      → before c.last_recovery_at now ≡ true
      → (evaluate_check hex_digest agent now c r).1 ≡ e ∷ []
      → e.kind ≡ event_problem
      → IsRestored true c e (restore_check c (queued e now))
  unfolding restore_check notified_of problem_event new_event
  crash-problem e p s b h k =
      let raised = rw (evaluate_check-plain hex_digest agent now c r p) at h in
      ground (arith, raised)

  -- Suppose a run raises a recovery for a check not fed by the journal, and stops once the queue is
  -- saved. Then the next run restores from the queued event a closed entry with status OK.
  pub crash-recovery :
      (e : Event)
      → IsPlain r
      → (evaluate_check hex_digest agent now c r).1 ≡ e ∷ []
      → e.kind ≡ event_recovery
      → IsRestored false c e (restore_check c (queued e now))
  unfolding restore_check succeeded notified_of problem_event new_event
  crash-recovery e p h k =
      let raised = rw (evaluate_check-plain hex_digest agent now c r p) at h in
      ground (arith, raised)

  resume :
      (e : Event) (o : Option CheckState) (rs : List (Time × Result))
      → agent.notify_recovery ≡ true
      → All (λ tr. IsPlain tr.1) rs
      → IsRestored true c e o
      → (d : CheckState) × (o ≡ some d)
        × ((q : Phase) × (read alerted (kinds (observe hex_digest agent d rs).1) ≡ some q))
  resume e none rs n p i = absurd i
  resume e (some d) rs n p i =
      let (q, eq, a) = observe-read hex_digest agent d rs alerted n p i.0 in (d, refl, (q, eq))

  -- Suppose, with recovery notifications enabled, a run raises a problem for a check not fed by the
  -- journal, with status WARNING or CRITICAL, and stops once the queue is saved; and suppose the check
  -- has not recovered at that time or later. Then the next run restores an entry, and whatever results
  -- not fed by the journal follow, the notifications are in the right order after a problem: none is a
  -- second problem before a recovery.
  pub crash_resumes :
      (e : Event) (rs : List (Time × Result))
      → IsPlain r
      → (r.status ≡ status_warning) ⊎ (r.status ≡ status_critical)
      → before c.last_recovery_at now ≡ true
      → (evaluate_check hex_digest agent now c r).1 ≡ e ∷ []
      → e.kind ≡ event_problem
      → agent.notify_recovery ≡ true
      → All (λ tr. IsPlain tr.1) rs
      → (d : CheckState) × (restore_check c (queued e now) ≡ some d)
        × ((q : Phase) × (read alerted (kinds (observe hex_digest agent d rs).1) ≡ some q))
  crash_resumes e rs p s b h k n ps =
      resume e (restore_check c (queued e now)) rs n ps (crash-problem e p s b h k)

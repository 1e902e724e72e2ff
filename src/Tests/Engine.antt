-- ===== src/Tests/Engine.antt =====
-- The evaluation engine.
use gotify_vps_agent.Prelude.{◌≡◌, refl, true, false, List, [], ◌∷◌, some, arith}
use gotify_vps_agent.Prelude.Text.{Text, bytes, text_eq}
use gotify_vps_agent.Prelude.Int.{pos, inc}
use gotify_vps_agent.Prelude.Dict.{lookup}
use gotify_vps_agent.Clock.{Time}
use gotify_vps_agent.Model.{
  status_ok, status_warning, status_critical, Result, event_problem, event_escalation,
  event_recovery,
}
use gotify_vps_agent.State.{State}
use gotify_vps_agent.Engine.{
  is_ok, journal_check, evaluate_check, evaluate, baseline, baseline_check, problem_event,
  new_event,
}
use gotify_vps_agent.Engine.History.{observe, kinds}
use gotify_vps_agent.Engine.Protocol.{Phase, quiet, Agrees, read, observe-read}
use gotify_vps_agent.Engine.Thresholds.{failures-alert, successes-recover}
use gotify_vps_agent.Engine.Journal.{occurrence-once}
use gotify_vps_agent.Engine.Refinement.{
  find_result, entry_after, raised, evaluate_lem, baseline_lem,
}
use gotify_vps_agent.Tests.Fixtures.{digest, agent, healthy, failing, disk_result, oom_result}

abbrev incident : List (Time × Result)
incident =
    (10, disk_result status_warning)
    ∷ (20, disk_result status_warning)
    ∷ (30, disk_result status_critical)
    ∷ (40, disk_result status_critical)
    ∷ (50, disk_result status_ok)
    ∷ (60, disk_result status_ok)
    ∷ []

-- TestWarningAndRecoveryThresholds and TestNotifiedSeverityChangesStillRequireConfirmation.
incident-kinds :
    kinds (observe digest agent healthy incident).1
    ≡ event_problem ∷ event_escalation ∷ event_recovery ∷ []
unfolding observe evaluate_check journal_check text_eq inc new_event problem_event
incident-kinds = refl

observe-read_example :
    (q : Phase) × (read quiet (kinds (observe digest agent healthy incident).1) ≡ some q)
    × Agrees q (observe digest agent healthy incident).0
unfolding journal_check text_eq
observe-read_example = observe-read digest agent healthy incident quiet refl (ground arith) refl

abbrev two_failures : List (Time × Result)
two_failures = (10, disk_result status_warning) ∷ (20, disk_result status_critical) ∷ []

failures-alert_example : kinds (observe digest agent healthy two_failures).1 ≡ event_problem ∷ []
unfolding journal_check text_eq
failures-alert_example =
    failures-alert digest agent 2 healthy two_failures refl (omega arith) (omega arith) refl refl
      (ground arith) (omega arith)

abbrev two_successes : List (Time × Result)
two_successes = (10, disk_result status_ok) ∷ (20, disk_result status_ok) ∷ []

successes-recover_example :
    (kinds (observe digest agent failing two_successes).1 ≡ event_recovery ∷ [])
    × ((observe digest agent failing two_successes).0.notified ≡ false)
    × (is_ok (observe digest agent failing two_successes).0.current ≡ true)
unfolding journal_check text_eq
successes-recover_example =
    successes-recover digest agent 2 failing two_successes refl (omega arith) (omega arith) refl
      refl refl (ground arith) (omega arith)

abbrev first_oom : Result
first_oom = oom_result (bytes "cursor1")

abbrev quiet_oom : Result
quiet_oom = record first_oom { status = status_ok; occurrence = [] }

occurrence-once_example :
    (evaluate_check digest agent 30
      (observe digest agent
        (evaluate_check digest agent 10 healthy first_oom).0
        ((20, quiet_oom) ∷ [])).0
      first_oom).1
    ≡ []
unfolding journal_check text_eq
occurrence-once_example =
    occurrence-once digest agent 10 30 healthy first_oom ((20, quiet_oom) ∷ []) refl (ground arith)

abbrev both : List Result
both = disk_result status_warning ∷ first_oom ∷ []

abbrev remembered : State
remembered = record {
  version = pos 1;
  initialized = true;
  last_run = 5;
  checks = (bytes "disk", failing) ∷ (bytes "service.nginx", failing) ∷ [];
}

evaluate_lem_example :
    ((id : Text)
      → lookup id (evaluate digest remembered both agent 10).0.checks
        ≡ entry_after digest agent 10 remembered.checks (find_result id both))
    × ((evaluate digest remembered both agent 10).1 ≡ raised digest agent 10 remembered.checks both)
    × ((evaluate digest remembered both agent 10).0.last_run ≡ 10)
    × ((evaluate digest remembered both agent 10).0.initialized ≡ true)
unfolding text_eq
evaluate_lem_example = evaluate_lem digest agent 10 remembered both (ground arith)

baseline_lem_example :
    lookup (bytes "disk") (baseline digest remembered both 10).checks
    ≡ some (baseline_check digest (disk_result status_warning) 10)
unfolding text_eq
baseline_lem_example = baseline_lem digest remembered both 10 (bytes "disk") (ground arith)

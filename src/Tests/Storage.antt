-- ===== src/Tests/Storage.antt =====
-- Restoring after a stop.
use gotify_vps_agent.Prelude.{◌≡◌, refl, true, inr, [], ◌∷◌, none, some, arith}
use gotify_vps_agent.Prelude.Text.{bytes, text_eq}
use gotify_vps_agent.Prelude.Dict.{lookup}
use gotify_vps_agent.Prelude.Int.{inc}
use gotify_vps_agent.Model.{status_critical, Result, Event}
use gotify_vps_agent.State.{CheckState, new}
use gotify_vps_agent.Engine.{journal_check, evaluate_check, problem_event, new_event}
use gotify_vps_agent.Engine.History.{observe, kinds}
use gotify_vps_agent.Engine.Protocol.{Phase, alerted, read}
use gotify_vps_agent.Queue.{last_of}
use gotify_vps_agent.Storage.{restore_check, restore_pending_state}
use gotify_vps_agent.Storage.Restore.{restored, restore_pending_state_lem}
use gotify_vps_agent.Storage.Crash.{queued, crash_resumes}
use gotify_vps_agent.Tests.Fixtures.{digest, agent, healthy, disk_result, two_events, waiting}

restore_pending_state_lem_example :
    lookup (bytes "disk") (restore_pending_state new waiting).checks
    ≡ restored none (last_of (bytes "disk") two_events)
unfolding new lookup
restore_pending_state_lem_example = restore_pending_state_lem new waiting (bytes "disk")

abbrev urgent : Result
urgent = record (disk_result status_critical) { immediate = true }

abbrev urgent_event : Event
urgent_event = problem_event digest urgent 10

raises :
    (evaluate_check digest agent 10 (record healthy { last_recovery_at = 3 }) urgent).1
    ≡ urgent_event ∷ []
unfolding evaluate_check journal_check text_eq inc
raises = refl

crash_resumes_example :
    (d : CheckState) × (restore_check
        (record healthy { last_recovery_at = 3 })
        (queued urgent_event 10)
      ≡ some d)
    × ((q : Phase) × (read alerted (kinds (observe digest agent d ((20, urgent) ∷ [])).1) ≡ some q))
unfolding journal_check text_eq problem_event new_event
crash_resumes_example =
    crash_resumes digest agent 10 (record healthy { last_recovery_at = 3 }) urgent urgent_event
      ((20, urgent) ∷ []) (refl, refl) (inr refl) refl raises refl refl (ground arith)

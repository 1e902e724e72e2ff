-- ===== src/Tests/Files.antt =====
-- The state file, the order of the writes, and a recovery that was queued before a stop.
use gotify_vps_agent.Prelude.{◌≡◌, refl, ◌⊎◌, false, [], ◌∷◌, Option, none, some}
use gotify_vps_agent.Prelude.Int.{pos, inc}
use gotify_vps_agent.Prelude.Text.{Text, bytes, text_eq}
use gotify_vps_agent.Model.{status_ok, event_recovery, Event}
use gotify_vps_agent.File.{Decoded, malformed, missing}
use gotify_vps_agent.State.{CheckState, State, new, load}
use gotify_vps_agent.State.Files.{IsLoaded, state_load-IsLoaded}
use gotify_vps_agent.Queue.{Queue}
use gotify_vps_agent.Engine.{evaluate_check, journal_check, new_event}
use gotify_vps_agent.Storage.{restore_check}
use gotify_vps_agent.Storage.Crash.{queued, IsRestored, crash-recovery}
use gotify_vps_agent.Storage.Writes.{Persistence, Separate, persist_check, persist_check-order}
use gotify_vps_agent.Tests.Fixtures.{digest, agent, failing, disk_result, waiting}

abbrev no_value : Text → Decoded State
no_value text = malformed

state_load-IsLoaded_example : IsLoaded new
state_load-IsLoaded_example = state_load-IsLoaded no_value missing new (unfold load in refl)

-- A disk of three files, on which the state file cannot be written.
abbrev Disk : Type 0
Disk = Text × Text × Text

abbrev state_on : Disk → Text
state_on (q, s, c) = s

abbrev cursor_on : Disk → Text
cursor_on (q, s, c) = c

abbrev write_queue : Queue → Disk → Option Text × Disk
write_queue q (old, s, c) = (none, (bytes "new", s, c))

abbrev fail_state : State → Disk → Option Text × Disk
fail_state s disk = (some (bytes "full"), disk)

abbrev write_cursor : Text → Disk → Option Text × Disk
write_cursor text (q, s, c) = (none, (q, s, text))

abbrev full_disk : Persistence Disk Text
full_disk = record { save_queue = write_queue; save_state = fail_state; save_cursor = write_cursor }

full_disk-Separate : Separate full_disk state_on cursor_on
full_disk-Separate = record {
  queue_keeps_state = λ q w. refl;
  queue_keeps_cursor = λ q w. refl;
  state_keeps_cursor = λ s w. refl;
  cursor_keeps_state = λ c w. refl;
}

abbrev before_write : Disk
before_write = (bytes "q", bytes "s", bytes "c")

persist_check-order_example :
    ((state_on (persist_check new waiting (bytes "d") full_disk before_write).1 ≡ bytes "s")
      ⊎ ((write_queue waiting before_write).0 ≡ none))
    × ((cursor_on (persist_check new waiting (bytes "d") full_disk before_write).1 ≡ bytes "c")
        ⊎ (((write_queue waiting before_write).0 ≡ none)
            × ((fail_state new (write_queue waiting before_write).1).0 ≡ none)))
persist_check-order_example =
    persist_check-order new waiting (bytes "d") full_disk state_on cursor_on before_write
      full_disk-Separate

-- One more success closes the incident.
abbrev almost : CheckState
almost = record failing { last_observed = status_ok; consecutive_successes = pos 1 }

abbrev recovery : Event
recovery =
    new_event digest (disk_result status_ok) event_recovery status_ok (bytes "Recovered: usage")

recovers : (evaluate_check digest agent 10 almost (disk_result status_ok)).1 ≡ recovery ∷ []
unfolding evaluate_check journal_check text_eq inc
recovers = refl

crash-recovery_example :
    IsRestored false almost recovery (restore_check almost (queued recovery 10))
unfolding journal_check text_eq new_event
crash-recovery_example =
    crash-recovery digest agent 10 almost (disk_result status_ok) recovery (refl, refl) recovers
      refl

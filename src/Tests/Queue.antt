-- ===== src/Tests/Queue.antt =====
-- The queue.
use gotify_vps_agent.Prelude.{
  ℕ, ◌+◌, ◌*◌, ◌^◌, ◌<◌, min, ◌≡◌, refl, true, false, ◌&&◌, [], ◌∷◌, ◌++◌, map, Option, some, arith,
  ltb, leb, length, drop,
}
use gotify_vps_agent.Prelude.Int.{pos}
use gotify_vps_agent.Prelude.Text.{Text, bytes}
use gotify_vps_agent.Clock.{minute}
use gotify_vps_agent.Model.{event_problem, status_warning}
use gotify_vps_agent.File.{contents, Decoded, read_limited, decoded, whole, done}
use gotify_vps_agent.Queue.{
  Queue, longest_delay, mark_failure, ready, add_one, add, trim, load, load_value, load_events,
  save, sanitize_event, is_invalid, encoded_length, trim_bytes,
}
use gotify_vps_agent.Queue.Backoff.{ready-mark_failure}
use gotify_vps_agent.Queue.Trim.{Fits, trim_lem}
use gotify_vps_agent.Queue.Adding.{add_one-again, add_lem}
use gotify_vps_agent.Queue.Files.{IsLoaded, load-IsLoaded, load-save}
use gotify_vps_agent.Tests.Fixtures.{disk_event, two_events, waiting}

-- Ten bytes for each event stand for the JSON of a queue.
abbrev ten_each : Queue → Option Text
ten_each q = some (bytes "0123456789")

abbrev read_waiting : Text → Decoded Queue
read_waiting t = whole waiting

ready-mark_failure_example :
    ((mark_failure waiting 100).next_attempt_at ≡ 100 + min (5 * minute * 2 ^ 3) longest_delay)
    × ((mark_failure waiting 100).attempts ≡ pos 4)
    × ((mark_failure waiting 100).events ≡ two_events)
    × (ready (mark_failure waiting 100) 200
        ≡ (ltb 0 (length two_events) && leb (100 + min (5 * minute * 2 ^ 3) longest_delay) 200))
ready-mark_failure_example = ready-mark_failure waiting 100 200 3 refl (omega arith)

trim_lem_example :
    Fits ten_each (trim ten_each waiting)
    × ((k : ℕ) × (trim ten_each waiting ≡ record waiting { events = drop k two_events })
        × ((j : ℕ) → j < k → ¬ Fits ten_each (record waiting { events = drop j two_events })))
trim_lem_example = trim_lem ten_each waiting

add_one-again_example :
    add_one 20
      (disk_event event_problem status_warning (bytes "new"))
      (add_one 10 (disk_event event_problem status_warning (bytes "new")) two_events).0
    ≡ ((add_one 10 (disk_event event_problem status_warning (bytes "new")) two_events).0, false)
add_one-again_example =
    add_one-again 10 20 (disk_event event_problem status_warning (bytes "new")) two_events

add_lem_example :
    ((add ten_each waiting [] 10).1 ≡ false
      → (add ten_each waiting [] 10).0 ≡ trim ten_each waiting)
    × ((add ten_each waiting [] 10).1 ≡ true
        → ((add ten_each waiting [] 10).0.attempts ≡ pos 0)
          × (ready (add ten_each waiting [] 10).0 11
              ≡ ltb 0 (length (add ten_each waiting [] 10).0.events)))
add_lem_example = add_lem ten_each waiting [] 10 11

load-IsLoaded_example : IsLoaded (record waiting { events = map sanitize_event two_events })
unfolding load load_value load_events is_invalid read_limited decoded
load-IsLoaded_example =
    load-IsLoaded read_waiting (contents (bytes "waiting"))
      (record waiting { events = map sanitize_event two_events }) refl

abbrev encode_waiting : Queue → Option Text
encode_waiting q = some (bytes "waiting")

load-save_example :
    load read_waiting (contents (bytes "waiting" ++ 10 ∷ []))
    ≡ done (record (trim encode_waiting waiting) {
      events = map sanitize_event (trim encode_waiting waiting).events;
    })
unfolding save trim is_invalid trim_bytes encoded_length
load-save_example =
    load-save encode_waiting read_waiting waiting (bytes "waiting" ++ 10 ∷ []) refl refl
      (λ t e. refl) (refl, (refl, tt))

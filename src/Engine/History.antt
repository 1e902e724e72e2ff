-- ===== src/Engine/History.antt =====
-- One check over many runs of `Evaluate`: its entry is carried from run to run.
use gotify_vps_agent.Prelude.{◌≡◌, true, false, List, [], ◌∷◌, ◌++◌}
use gotify_vps_agent.Prelude.Text.{Text, is_empty}
use gotify_vps_agent.Clock.{Time}
use gotify_vps_agent.Model.{Result, EventKind, Event}
use gotify_vps_agent.Config.{Agent}
use gotify_vps_agent.State.{CheckState}
use gotify_vps_agent.Engine.{journal_check, evaluate_check}

-- The entry after a sequence of runs, and the events of all of them.
unfoldable pub observe :
    (Text → Text) → Agent → CheckState → List (Time × Result) → CheckState × List Event
observe hex_digest agent check [] = (check, [])
observe hex_digest agent check ((now, r) ∷ rs) =
    let (next, raised) = evaluate_check hex_digest agent now check r in
    let (last, later) = observe hex_digest agent next rs in (last, raised ++ later)

abbrev pub kinds : List Event → List EventKind
kinds [] = []
kinds (e ∷ es) = e.kind ∷ kinds es

-- A result of a check that is not fed by the kernel journal.
abbrev pub IsPlain : Result → Type 0
IsPlain r = (journal_check r.id ≡ false) × (is_empty r.occurrence ≡ true)

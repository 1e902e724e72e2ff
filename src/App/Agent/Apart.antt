-- ===== src/App/Agent/Apart.antt =====
-- internal/app/app.go: the results that a run evaluates have different IDs.
use gotify_vps_agent.Prelude.{
  ◌≡◌, refl, sym, subst, Bool, true, false, ◌||◌, List, [], ◌∷◌, ◌++◌, Option, arith, if◌then◌else◌,
}
use gotify_vps_agent.Prelude.Text.{Text, text_eq_iff}
use gotify_vps_agent.Clock.{Time}
use gotify_vps_agent.Model.{Result}
use gotify_vps_agent.Config.{Config}
use gotify_vps_agent.Config.Reader.{loaded}
use gotify_vps_agent.Config.Services.{load-DistinctKeys}
use gotify_vps_agent.Queue.{Queue}
use gotify_vps_agent.Engine.{active}
use gotify_vps_agent.Engine.Refinement.{Distinct}
use gotify_vps_agent.Storage.Writes.{DiskError}
use gotify_vps_agent.Checks.All.Apart.{run-Distinct, run-absent}
use gotify_vps_agent.Checks.All.Names.{delivery_queue-id}
use gotify_vps_agent.Checks.All.{run}
use gotify_vps_agent.Run.{CheckOptions, all_results}
use gotify_vps_agent.App.{go_of, World, load_config}
use gotify_vps_agent.App.Agent.{Surroundings, agent_machine}

active-append :
    (xs ys : List Result) (id : Text) → active (xs ++ ys) id ≡ (active xs id || active ys id)
active-append [] ys id = refl
active-append (x ∷ xs) ys id = ground (arith, active-append xs ys id)

append-Distinct :
    (rs : List Result) (r : Result) → Distinct rs → active rs r.id ≡ false → Distinct (rs ++ r ∷ [])
append-Distinct [] r d a = (refl, tt)
append-Distinct (q ∷ rs) r d a = (
  ground
      (arith, d.0, a, active-append rs (r ∷ []) q.id, text_eq_iff q.id r.id, text_eq_iff r.id q.id),
  append-Distinct rs r d.1 (ground (arith, a)),
)

if-Distinct :
    (b : Bool) (this that : List Result)
    → Distinct this
    → Distinct that
    → Distinct (if b then this else that)
if-Distinct true this that h k = h
if-Distinct false this that h k = k

-- No two of the results that a run of the agent with its loaded settings evaluates have the same ID,
-- that of the queue included, whatever the machine answers and whichever checks are enabled.
pub all_results-Distinct :
    {F : Type 0} (w : World F) (s : Surroundings F) (path : Text) (cfg : Config F) (last_run : Time)
    (pending : Queue) (digest : Text → Text) (rfc3339 : Time → Text) (marshal : Queue → Option Text)
    (error_text : DiskError → Text) (options : CheckOptions)
    → load_config w path ≡ loaded cfg
    → let m = agent_machine w s path in
      Distinct (
        all_results digest rfc3339 marshal error_text options m cfg
          (m.checks_run cfg last_run).results
          pending)
unfolding all_results agent_machine load_config
all_results-Distinct w s path cfg last_run pending digest rfc3339 marshal error_text options h =
    let d = load-DistinctKeys (go_of w) w.hostname (w.config_file path) cfg h in
    let apart = run-Distinct s.float (go_of w) s.hex_digest s.json_entry s.host cfg last_run d in
    if-Distinct cfg.checks.delivery_queue _ _
      (append-Distinct _ _ apart (
        subst
          (λ name.
            active (run s.float (go_of w) s.hex_digest s.json_entry s.host cfg last_run).results
              name
            ≡ false)
          (sym (delivery_queue-id _ _ _ _))
          (run-absent s.float (go_of w) s.hex_digest s.json_entry s.host cfg last_run)))
      apart

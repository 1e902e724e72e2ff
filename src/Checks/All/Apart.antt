-- ===== src/Checks/All/Apart.antt =====
-- No two results of a run have the same ID, as `Evaluate` and `Baseline` expect.
use gotify_vps_agent.Prelude.{
  not, ◌&&◌, ◌≡◌, refl, sym, ap, subst, ◌∙◌, Bool, true, false, ◌||◌, inl, inr, List, [], ◌∷◌, ◌++◌,
  Option, any, arith, All, Bool-cases,
}
use gotify_vps_agent.Prelude.Text.{Text, bytes, text_eq, text_eq→eq, text_eq_iff}
use gotify_vps_agent.Prelude.Dict.{Dict, sort_keys, has_key, DistinctKeys, sort_keys-DistinctKeys}
use gotify_vps_agent.Strings.Search.{has_prefix}
use gotify_vps_agent.Clock.{Time}
use gotify_vps_agent.Model.{Result}
use gotify_vps_agent.Config.{Config, Go}
use gotify_vps_agent.Engine.{active}
use gotify_vps_agent.Engine.Refinement.{Distinct}
use gotify_vps_agent.Checks.{Mount, ok, problem}
use gotify_vps_agent.Checks.Host.{Host, Floats}
use gotify_vps_agent.Checks.Kernel.{JournalSnapshot, RawEntry}
use gotify_vps_agent.Checks.Services.{
  unit_result, check_postgresql, postgresql_status, check_service, check_sorted, check_services,
}
use gotify_vps_agent.Checks.All.{enabled_results, slots, results_of, run}
use gotify_vps_agent.Checks.All.Names.{
  check_systemd_failed-id, check_disk-id, check_inode-id, check_read_only-id, check_memory-id,
  check_swap-id, check_oom-id, check_load-id, check_kernel_errors-id, check_apt-id, check_dpkg-id,
  check_apt_timers-id, check_unattended_upgrades-id, check_reboot_required-id, check_needrestart-id,
  check_time_sync-id, check_agent_timer-id, check_agent_freshness-id,
}

-- Each result has the name beside it.
abbrev pub Named : List (Bool × Result) → List Text → Type 0
Named [] [] = Unit
Named ((b, r) ∷ rest) (name ∷ names) = (r.id ≡ name) × Named rest names
Named _ _ = ⊥

abbrev DistinctNames : List Text → Type 0
DistinctNames [] = Unit
DistinctNames (name ∷ names) = (any (text_eq name) names ≡ false) × DistinctNames names

-- A name that stands apart from the names and from the results behind them is not among the results.
enabled_results-absent :
    (slots : List (Bool × Result)) (names : List Text) (rest : List Result) (id : Text)
    → Named slots names
    → any (text_eq id) names ≡ false
    → active rest id ≡ false
    → active (enabled_results slots ++ rest) id ≡ false
unfolding enabled_results
enabled_results-absent [] [] rest id n h k = k
enabled_results-absent [] (name ∷ names) rest id n h k = absurd n
enabled_results-absent (s ∷ slots) [] rest id n h k = absurd n
enabled_results-absent ((b, r) ∷ slots) (name ∷ names) rest id n h k = ground (
  arith,
  n.0,
  text_eq_iff r.id id,
  text_eq_iff id name,
  enabled_results-absent slots names rest id n.1 (ground arith) k,
)

enabled_results-Distinct :
    (slots : List (Bool × Result)) (names : List Text) (rest : List Result)
    → Named slots names
    → DistinctNames names
    → All (λ name. active rest name ≡ false) names
    → Distinct rest
    → Distinct (enabled_results slots ++ rest)
unfolding enabled_results
enabled_results-Distinct [] [] rest n d a k = k
enabled_results-Distinct [] (name ∷ names) rest n d a k = absurd n
enabled_results-Distinct (s ∷ slots) [] rest n d a k = absurd n
enabled_results-Distinct ((true, r) ∷ slots) (name ∷ names) rest n d a k = (
  subst (λ id. active (enabled_results slots ++ rest) id ≡ false) (sym n.0)
      (enabled_results-absent slots names rest name n.1 d.0 a.0),
  enabled_results-Distinct slots names rest n.1 d.1 a.1 k,
)
enabled_results-Distinct ((false, r) ∷ slots) (name ∷ names) rest n d a k =
    enabled_results-Distinct slots names rest n.1 d.1 a.1 k

abbrev service_id : Text → Text
service_id id = bytes "service." ++ id

check_postgresql-id :
    (host : Host) (unit : Text) → (check_postgresql host unit).id ≡ bytes "service.postgresql"
unfolding check_postgresql unit_result postgresql_status ok problem
check_postgresql-id host unit = ground arith

check_service-id : (host : Host) (id unit : Text) → (check_service host id unit).id ≡ service_id id
unfolding check_service unit_result ok problem
check_service-id host id unit = elim (Bool-cases (text_eq id (bytes "postgresql"))) [
  | inl e ↦
      rw (e)
        (check_postgresql-id host unit ∙ ap service_id (sym (text_eq→eq id (bytes "postgresql") e)))
  | inr e ↦ rw (e) (ground arith)
]

active-check_sorted :
    (host : Host) (m : Dict Text) (id : Text)
    → active (check_sorted host m) (service_id id) ≡ has_key id m
unfolding check_sorted text_eq
active-check_sorted host [] id = refl
active-check_sorted host ((j, unit) ∷ rest) id =
    rw (check_service-id host j unit) (ap (◌||◌ (text_eq j id)) (active-check_sorted host rest id))

check_sorted-Distinct :
    (host : Host) (m : Dict Text) → DistinctKeys m → Distinct (check_sorted host m)
unfolding check_sorted
check_sorted-Distinct host [] d = tt
check_sorted-Distinct host ((id, unit) ∷ rest) d = (
  subst (λ name. active (check_sorted host rest) name ≡ false) (sym (check_service-id host id unit))
      (active-check_sorted host rest id ∙ d.0),
  check_sorted-Distinct host rest d.1,
)

-- A name that does not start like a service's.
active-other :
    (host : Host) (m : Dict Text) (name : Text)
    → ((id : Text) → text_eq (service_id id) name ≡ false)
    → active (check_sorted host m) name ≡ false
unfolding check_sorted
active-other host [] name h = refl
active-other host ((id, unit) ∷ rest) name h =
    rw (check_service-id host id unit, h id) (active-other host rest name h)

abbrev fixed_names : List Text
fixed_names =
    bytes "systemd.failed"
    ∷ bytes "filesystem.disk"
    ∷ bytes "filesystem.inode"
    ∷ bytes "filesystem.readonly"
    ∷ bytes "memory.available"
    ∷ bytes "memory.swap"
    ∷ bytes "memory.oom"
    ∷ bytes "cpu.load"
    ∷ bytes "kernel.errors"
    ∷ bytes "apt.check"
    ∷ bytes "dpkg.audit"
    ∷ bytes "apt.timers"
    ∷ bytes "apt.unattended"
    ∷ bytes "reboot.required"
    ∷ bytes "kernel.needrestart"
    ∷ bytes "time.sync"
    ∷ bytes "agent.timer"
    ∷ bytes "agent.freshness"
    ∷ []

-- The two facts about these names, as tests.
names_apart : List Text → Bool
names_apart [] = true
names_apart (name ∷ names) = not (any (text_eq name) names) && names_apart names

names_apart-DistinctNames : (names : List Text) → names_apart names ≡ true → DistinctNames names
unfolding names_apart
names_apart-DistinctNames [] h = tt
names_apart-DistinctNames (name ∷ names) h =
    (ground arith, names_apart-DistinctNames names (ground arith))

-- The names of the services start otherwise.
abbrev Unlike : Text → Type 0
Unlike name = (id : Text) → text_eq (service_id id) name ≡ false

text_eq-has_prefix : (p t id : Text) → has_prefix t p ≡ false → text_eq (p ++ id) t ≡ false
unfolding has_prefix text_eq
text_eq-has_prefix [] [] id h = absurd (ground arith)
text_eq-has_prefix [] (c ∷ t) id h = absurd (ground arith)
text_eq-has_prefix (b ∷ p) [] id h = refl
text_eq-has_prefix (b ∷ p) (c ∷ t) id h = ground (arith, text_eq-has_prefix p t id)

abbrev starts_service : Text → Bool
unfolding has_prefix
starts_service name = has_prefix name (bytes "service.")

starts_service-Unlike : (names : List Text) → any starts_service names ≡ false → All Unlike names
unfolding starts_service
starts_service-Unlike [] h = tt
starts_service-Unlike (name ∷ names) h = (
  λ id. text_eq-has_prefix (bytes "service.") name id (ground arith),
  starts_service-Unlike names (ground arith),
)

fixed_names-DistinctNames : DistinctNames fixed_names
unfolding names_apart text_eq
fixed_names-DistinctNames = names_apart-DistinctNames fixed_names refl

fixed_names-Unlike : All Unlike fixed_names
unfolding starts_service has_prefix
fixed_names-Unlike = starts_service-Unlike fixed_names refl

active-others :
    (host : Host) (m : Dict Text) (names : List Text)
    → All Unlike names
    → All (λ name. active (check_sorted host m) name ≡ false) names
active-others host m [] u = tt
active-others host m (name ∷ names) u =
    (active-other host m name u.0, active-others host m names u.1)

module _ {F : Type 0} (float : Floats F) (go : Go F) (hex_digest : Text → Text)
    (json_entry : Text → Option RawEntry) (host : Host) where
  slots-Named :
      (cfg : Config F) (last_run : Time) (journal : JournalSnapshot) (mounts : List Mount)
      (failed : Bool)
      → Named
          (slots float go hex_digest json_entry host cfg last_run journal mounts failed)
          fixed_names
  unfolding slots
  slots-Named cfg last_run journal mounts failed = (
    check_systemd_failed-id host,
    (
      check_disk-id _ _ _ _ _,
      (
        check_inode-id _ _ _ _ _,
        (
          check_read_only-id mounts failed,
          (
            check_memory-id float host _ _,
            (
              check_swap-id float host _ _,
              (
                check_oom-id hex_digest journal,
                (
                  check_load-id float host _,
                  (
                    check_kernel_errors-id hex_digest journal,
                    (
                      check_apt-id host,
                      (
                        check_dpkg-id host,
                        (
                          check_apt_timers-id host,
                          (
                            check_unattended_upgrades-id float host _ last_run,
                            (
                              check_reboot_required-id float host,
                              (
                                check_needrestart-id host,
                                (
                                  check_time_sync-id host,
                                  (
                                    check_agent_timer-id host,
                                    (check_agent_freshness-id _ _ _ _, tt),
                                  ),
                                ),
                              ),
                            ),
                          ),
                        ),
                      ),
                    ),
                  ),
                ),
              ),
            ),
          ),
        ),
      ),
    ),
  )

  -- If no service is configured twice, which a map excludes, then no two results of `Run` have the
  -- same ID, whatever the machine answers and whichever checks are enabled.
  pub run-Distinct :
      (cfg : Config F) (last_run : Time)
      → DistinctKeys cfg.services
      → Distinct (run float go hex_digest json_entry host cfg last_run).results
  unfolding run results_of check_services
  run-Distinct cfg last_run d =
      let sorted = sort_keys cfg.services in
      enabled_results-Distinct _ fixed_names (check_sorted host sorted)
        (slots-Named cfg last_run _ _ _) fixed_names-DistinctNames
        (active-others host sorted fixed_names fixed_names-Unlike)
        (check_sorted-Distinct host sorted (sort_keys-DistinctKeys cfg.services d))

  -- The name of the result that the run itself adds is not among those of `Run`.
  pub run-absent :
      (cfg : Config F) (last_run : Time)
      → active
          (run float go hex_digest json_entry host cfg last_run).results
          (bytes "delivery.queue")
        ≡ false
  unfolding run results_of check_services text_eq
  run-absent cfg last_run =
      let sorted = sort_keys cfg.services in
      enabled_results-absent _ fixed_names (check_sorted host sorted) (bytes "delivery.queue")
        (slots-Named cfg last_run _ _ _) refl
        (active-other host sorted (bytes "delivery.queue") λ i. refl)

-- ===== src/App/Doctor/Ready.antt =====
-- internal/app/app.go, Doctor: what holds where it reports no failure.
use gotify_vps_agent.Prelude.{
  All-drop, ◌≡◌, refl, sym, subst, ◌∙◌, Bool, true, false, ◌||◌, List, [], ◌∷◌, ◌++◌, Option, none,
  some, any, All, arith, append_assoc, append-nil,
}
use gotify_vps_agent.Prelude.Int.{ℤ}
use gotify_vps_agent.Prelude.Text.{Text}
use gotify_vps_agent.File.{Outcome, done, failed}
use gotify_vps_agent.Config.{Config, TokenResult, token_value, token_error, state_path, queue_path}
use gotify_vps_agent.Config.Reader.{Loaded, loaded, unavailable, too_big, unparsed, invalid}
use gotify_vps_agent.Config.Accepted.{IsValid, load-IsValid}
use gotify_vps_agent.State.{State}
use gotify_vps_agent.State
use gotify_vps_agent.Queue.{Queue}
use gotify_vps_agent.Queue
use gotify_vps_agent.Gotify.{Client, NewClient, client, no_client, health}
use gotify_vps_agent.App.{go_of, World, load_config, read_token, debian, client_for}
use gotify_vps_agent.App.Doctor.{
  DoctorEntry, Report, fails, add, add_all, runtime_entries, command_entries, state_entry,
  queue_entry, health_entry, server_entries, token_entry, token_entries, machine_entries,
  stored_entries, commands, runtime_paths, system_entries, installed_entries, loaded_entries,
  doctor_loaded, doctor,
}

any-append {ℓ} :
    {A : Type ℓ} (p : A → Bool) (xs ys : List A) → any p (xs ++ ys) ≡ (any p xs || any p ys)
any-append p [] ys = refl
any-append p (x ∷ xs) ys = ground (arith, any-append p xs ys)

add_all-failed :
    (r : Report) (es : List DoctorEntry) → (add_all r es).failed ≡ (any fails es || r.failed)
unfolding add_all add
add_all-failed r [] = refl
add_all-failed r (e ∷ es) = ground (arith, add_all-failed (add r e) es)

add_all-entries : (r : Report) (es : List DoctorEntry) → (add_all r es).entries ≡ r.entries ++ es
unfolding add_all add
add_all-entries r [] = sym (append-nil r.entries)
add_all-entries r (e ∷ es) = add_all-entries (add r e) es ∙ append_assoc r.entries (e ∷ []) es

abbrev Passes : DoctorEntry → Type 0
Passes e = fails e ≡ false

any-All : (es : List DoctorEntry) → any fails es ≡ false → All Passes es
any-All [] h = tt
any-All (e ∷ es) h = (ground arith, any-All es (ground arith))

All-right : (xs ys : List DoctorEntry) → All Passes (xs ++ ys) → All Passes ys
All-right [] ys h = h
All-right (x ∷ xs) ys h = All-right xs ys h.1

any-last :
    (es : List DoctorEntry) (e : DoctorEntry) → fails e ≡ true → any fails (es ++ e ∷ []) ≡ true
any-last es e h = any-append fails es (e ∷ []) ∙ ground (arith, h)

add_all-any :
    (r : Report) (es : List DoctorEntry)
    → r.failed ≡ any fails r.entries
    → (add_all r es).failed ≡ any fails (add_all r es).entries
add_all-any r es h =
    rw (add_all-failed r es, add_all-entries r es, any-append fails r.entries es, h) (ground arith)

module _ {F : Type 0} (w : World F) where
  -- The client for the settings, and the answer of its server.
  abbrev pub IsHealthy : Config F → Type 0
  IsHealthy cfg =
      (value : Text) × (timeout : _) × (c : Client) × ((read_token w cfg ≡ token_value value)
        × (w.go.parse_duration cfg.gotify.timeout ≡ some timeout)
        × (client_for w cfg value timeout ≡ client c)
        × (health w.exchange w.acknowledgement c ≡ none))

  -- What `Doctor` finds out before it reports no failure.
  pub record IsReady (path : Text) : Type 0 where
    pub right_platform : debian w ≡ true
    pub is_root : w.root ≡ true
    pub cfg : Config F
    pub settings : load_config w path ≡ loaded cfg
    pub state : State
    pub state_loads : State.load w.decode_state (w.state_file (state_path cfg)) ≡ done state
    pub pending : Queue
    pub queue_loads : Queue.load w.decode_queue (w.queue_file (queue_path cfg)) ≡ done pending
    pub healthy : IsHealthy cfg

  -- What the entries behind the settings tell if none of them is a failure.
  abbrev LoadedReady : Config F → Type 0
  LoadedReady cfg =
      ((state : State) × (State.load w.decode_state (w.state_file (state_path cfg)) ≡ done state))
      × ((pending : Queue) × (Queue.load w.decode_queue (w.queue_file (queue_path cfg))
            ≡ done pending))
      × IsHealthy cfg

  or-false : (a b : Bool) → (a || b) ≡ false → (a ≡ false) × (b ≡ false)
  or-false a b h = (ground arith, ground arith)

  state_entry-done :
      (interval : Option ℤ) (o : Outcome State)
      → fails (state_entry w interval o) ≡ false
      → (state : State) × (o ≡ done state)
  unfolding state_entry
  state_entry-done interval (failed e) h = absurd (ground arith)
  state_entry-done interval (done state) h = (state, refl)

  queue_entry-done :
      (o : Outcome Queue) → fails (queue_entry w o) ≡ false → (pending : Queue) × (o ≡ done pending)
  unfolding queue_entry
  queue_entry-done (failed e) h = absurd (ground arith)
  queue_entry-done (done pending) h = (pending, refl)

  token_entry-value :
      (t : TokenResult) → fails (token_entry w t) ≡ false → (value : Text) × (t ≡ token_value value)
  token_entry-value (token_error e) h = absurd (ground arith)
  token_entry-value (token_value value) h = (value, refl)

  health_entry-none :
      (n : NewClient)
      → fails (health_entry w n) ≡ false
      → (c : Client) × (n ≡ client c) × (health w.exchange w.acknowledgement c ≡ none)
  unfolding health_entry
  health_entry-none (no_client e) h = absurd (ground arith)
  health_entry-none (client c) h = (c, refl, ground (arith, h))

  loaded_entries-LoadedReady :
      (path : Text) (cfg : Config F)
      → IsValid (go_of w) cfg
      → any fails (loaded_entries w path cfg) ≡ false
      → LoadedReady cfg
  unfolding loaded_entries token_entries machine_entries stored_entries server_entries
  loaded_entries-LoadedReady path cfg valid h =
      let entries = any-All (loaded_entries w path cfg) h in
      let after_installed =
        All-right (installed_entries w path cfg) (token_entries w cfg)
          (All-drop Passes 2 (loaded_entries w path cfg) entries) in
      let after_runtime =
        All-right (runtime_entries w (runtime_paths w cfg))
          (command_entries w (commands w) ++ machine_entries w cfg)
          (All-drop Passes 2 (token_entries w cfg) after_installed) in
      let after_commands =
        All-right (command_entries w (commands w)) (machine_entries w cfg) after_runtime in
      let after_timer = All-drop Passes 3 (machine_entries w cfg) after_commands in
      let after_state = All-drop Passes 1 (stored_entries w cfg) after_timer in
      let (value, t) = token_entry-value (read_token w cfg) after_installed.0 in
      let (timeout, parses, bounds) = valid.timeout_bounds in
      let server_passes : All Passes (server_entries w cfg (token_value value) (some timeout)) =
        subst (λ p. All Passes (server_entries w cfg (token_value value) p)) parses
          (subst (λ r. All Passes (server_entries w cfg r (w.go.parse_duration cfg.gotify.timeout)))
            t after_state.1) in
      let (c, made, well) = health_entry-none _ server_passes.0 in
      (
        state_entry-done _ _ after_timer.0,
        queue_entry-done _ after_state.0,
        (value, timeout, c, (t, parses, made, well)),
      )

  system_entries-pass : any fails (system_entries w) ≡ false → (debian w ≡ true) × (w.root ≡ true)
  unfolding system_entries
  system_entries-pass h = (ground (arith, h), ground (arith, h))

  doctor_loaded-IsReady :
      (path : Text) (l : Loaded F) (r : Report)
      → load_config w path ≡ l
      → (doctor_loaded w path l r).failed ≡ false
      → (r.failed ≡ false)
        × ((cfg : Config F) × (load_config w path ≡ loaded cfg) × LoadedReady cfg)
  unfolding doctor_loaded load_config
  doctor_loaded-IsReady path unavailable r e h = absurd (ground (arith, h))
  doctor_loaded-IsReady path too_big r e h = absurd (ground (arith, h))
  doctor_loaded-IsReady path (unparsed l) r e h = absurd (ground (arith, h))
  doctor_loaded-IsReady path (invalid l) r e h = absurd (ground (arith, h))
  doctor_loaded-IsReady path (loaded cfg) r e h =
      let (entries_pass, passes) =
        or-false _ _ (sym (add_all-failed r (loaded_entries w path cfg)) ∙ h) in
      (
        passes,
        (
          cfg,
          e,
          loaded_entries-LoadedReady path cfg
              (load-IsValid (go_of w) w.hostname (w.config_file path) cfg e) entries_pass,
        ),
      )

  ready : (path : Text) → (doctor w path).failed ≡ false → IsReady path
  unfolding doctor
  ready path h =
      let (system_passes, (cfg, e, ((state, s), (pending, q), healthy))) =
        doctor_loaded-IsReady path (load_config w path) _ refl h in
      let (platform, user) =
        system_entries-pass
          (or-false _ _ (sym (add_all-failed _ (system_entries w)) ∙ system_passes)).0 in
      record {
        right_platform = platform;
        is_root = user;
        cfg = cfg;
        settings = e;
        state = state;
        state_loads = s;
        pending = pending;
        queue_loads = q;
        healthy = healthy;
      }

  doctor_loaded-failed :
      (path : Text) (l : Loaded F) (r : Report)
      → r.failed ≡ any fails r.entries
      → (doctor_loaded w path l r).failed ≡ any fails (doctor_loaded w path l r).entries
  unfolding doctor_loaded add
  doctor_loaded-failed path (loaded cfg) r h = add_all-any r (loaded_entries w path cfg) h
  doctor_loaded-failed path unavailable r h = sym (any-last r.entries _ refl)
  doctor_loaded-failed path too_big r h = sym (any-last r.entries _ refl)
  doctor_loaded-failed path (unparsed e) r h = sym (any-last r.entries _ refl)
  doctor_loaded-failed path (invalid e) r h = sym (any-last r.entries _ refl)

  doctor-failed : (path : Text) → (doctor w path).failed ≡ any fails (doctor w path).entries
  unfolding doctor
  doctor-failed path =
      doctor_loaded-failed path (load_config w path) _ (add_all-any _ (system_entries w) refl)

  -- If none of the entries that `Doctor` shows is a failure, then it reports none, the system is
  -- Debian 13 and the user root, the settings, the check state and the queue load, the token is
  -- there, a client is made of the settings and the token, and its server answered the health request
  -- with success.
  pub doctor-IsReady :
      (path : Text)
      → any fails (doctor w path).entries ≡ false
      → ((doctor w path).failed ≡ false) × IsReady path
  doctor-IsReady path h = let passes = doctor-failed path ∙ h in (passes, ready path passes)

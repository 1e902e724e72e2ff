-- ===== src/Run/Dry.antt =====
-- What a dry run and a baseline run leave alone.
use gotify_vps_agent.Prelude.{
  ◌≡◌, sym, subst, Bool, true, false, not, ◌&&◌, List, [], ◌∷◌, ◌++◌, Option, none, some, arith,
  inl, inr, Bool-cases, All, All-append,
}
use gotify_vps_agent.Prelude.Text.{Text, is_empty}
use gotify_vps_agent.Clock.{Time}
use gotify_vps_agent.Model.{Result}
use gotify_vps_agent.Strings.{trim_space}
use gotify_vps_agent.Engine.{baseline}
use gotify_vps_agent.Config.{Config}
use gotify_vps_agent.Config.Reader.{Loaded, loaded, unavailable, too_big, unparsed, invalid}
use gotify_vps_agent.Queue.{Queue}
use gotify_vps_agent.State.{State}
use gotify_vps_agent.Storage.Writes.{
  DiskError, storage_unavailable, Stage, stage_directory, stage_permissions, stage_baseline,
  stage_cursor, stage_lock, stage_read_state, stage_read_queue,
}
use gotify_vps_agent.Run.{
  CheckOptions, Effect, lock_directory_made, lock_created, LockAnswers, acquire_lock, open_lock,
  Machine, Read, got, broken, Refusal, report, write_journal_cursor, run_baseline, end_baseline,
  run_writes, all_results, directory_made, mode_set, queue_written, delivery_action, state_written,
  lock_refused, state_refused, queue_refused, read_failed, run_checks, run_locked, run_loaded,
  run_check,
}

-- Neither the queue is written nor a queued event sent.
abbrev pub IsQuiet : Effect → Type 0
IsQuiet (queue_written q) = ⊥
IsQuiet (delivery_action a) = ⊥
IsQuiet _ = Unit

-- What `acquireLock` does to the outside, and nothing else: the lock's directory is made where it is
-- missing, and the lock file created.
abbrev pub IsLocking : Effect → Type 0
IsLocking lock_directory_made = Unit
IsLocking lock_created = Unit
IsLocking _ = ⊥

acquire_lock-IsLocking : (a : LockAnswers) → All IsLocking (acquire_lock a).1
unfolding acquire_lock open_lock
acquire_lock-IsLocking a = ground arith

acquire_lock-IsQuiet : (a : LockAnswers) → All IsQuiet (acquire_lock a).1
unfolding acquire_lock open_lock
acquire_lock-IsQuiet a = ground arith

module _ {F : Type 0} (hex_digest : Text → Text) (rfc3339 : Time → Text)
    (marshal : Queue → Option Text) (error_text : DiskError → Text) (options : CheckOptions)
    (m : Machine F) where
  read_failed-dry :
      (cfg : Config F) (locking : List Effect) (stage : Stage) (why : Refusal) (e : DiskError)
      → options.dry_run ≡ true
      → (read_failed hex_digest rfc3339 marshal error_text options m cfg locking stage why
          e).effects
        ≡ locking
  unfolding read_failed
  read_failed-dry cfg locking stage why e h = ground (arith, h)

  run_checks-dry :
      (cfg : Config F) (locking : List Effect) (s : State) (q : Queue)
      → options.dry_run ≡ true
      → (run_checks hex_digest rfc3339 marshal error_text options m cfg locking s q).effects
        ≡ locking
  unfolding run_checks
  run_checks-dry cfg locking s q h = ground (arith, h)

  run_locked-dry :
      (cfg : Config F) (l : Option DiskError × List Effect) (s : Read State) (q : Read Queue)
      → options.dry_run ≡ true
      → (run_locked hex_digest rfc3339 marshal error_text options m cfg l s q).effects ≡ l.1
  unfolding run_locked
  run_locked-dry cfg (some e, locking) s q h =
      read_failed-dry cfg locking stage_lock lock_refused e h
  run_locked-dry cfg (none, locking) (broken e) q h =
      read_failed-dry cfg locking stage_read_state state_refused e h
  run_locked-dry cfg (none, locking) (got s) (broken e) h =
      read_failed-dry cfg locking stage_read_queue queue_refused e h
  run_locked-dry cfg (none, locking) (got s) (got q) h = run_checks-dry cfg locking s q h

  run_loaded-dry :
      (c : Loaded F) (debian root : Bool)
      → options.dry_run ≡ true
      → All IsLocking
          (run_loaded hex_digest rfc3339 marshal error_text options m c debian root).effects
  unfolding run_loaded
  run_loaded-dry unavailable debian root h = tt
  run_loaded-dry too_big debian root h = tt
  run_loaded-dry (unparsed e) debian root h = tt
  run_loaded-dry (invalid e) debian root h = tt
  run_loaded-dry (loaded cfg) false root h = tt
  run_loaded-dry (loaded cfg) true false h = tt
  run_loaded-dry (loaded cfg) true true h =
      subst (All IsLocking)
        (sym (run_locked-dry cfg (acquire_lock m.lock) m.state_read m.queue_read h))
        (acquire_lock-IsLocking m.lock)

  -- A dry run does nothing to the outside but what the checks do to look at the machine, printing,
  -- and the steps of taking the lock, which are making the directory of the lock and creating its
  -- file: it sets no mode, writes neither the queue nor the state nor the cursor, and sends no
  -- message, whatever the machine answers, errors included.
  pub run_check-dry :
      options.dry_run ≡ true
      → All IsLocking (run_check hex_digest rfc3339 marshal error_text options m).effects
  unfolding run_check
  run_check-dry h = run_loaded-dry m.config m.debian m.root h

  report-IsQuiet :
      (cfg : Config F) (done : List Effect) (results : List Result) (stage : Stage) (e : DiskError)
      → All IsQuiet done
      → All IsQuiet
          (report hex_digest rfc3339 marshal error_text options m cfg done results stage e).effects
  unfolding report
  report-IsQuiet cfg done results stage e q = All-append IsQuiet done _ q (tt, tt)

  write_journal_cursor-IsQuiet :
      (cursor : Text) (done : List Effect)
      → All IsQuiet done
      → All IsQuiet (write_journal_cursor m cursor done).1
  unfolding write_journal_cursor
  write_journal_cursor-IsQuiet cursor done q = elim (Bool-cases (is_empty (trim_space cursor))) [
    | inl x ↦ rw (x) q
    | inr x ↦ rw (x) (All-append IsQuiet done _ q (tt, tt))
  ]

  end_baseline-IsQuiet :
      (cfg : Config F) (results : List Result) (failed : Option DiskError) (stated : List Effect)
      (cursored : Option DiskError × List Effect)
      → All IsQuiet stated
      → All IsQuiet cursored.1
      → All IsQuiet
          (end_baseline hex_digest rfc3339 marshal error_text options m cfg results failed stated
            cursored).effects
  unfolding end_baseline
  end_baseline-IsQuiet cfg results (some e) stated cursored q r =
      report-IsQuiet cfg stated results stage_baseline e q
  end_baseline-IsQuiet cfg results none stated (some e, cursored) q r =
      report-IsQuiet cfg cursored results stage_cursor e r
  end_baseline-IsQuiet cfg results none stated (none, cursored) q r = r

  run_baseline-IsQuiet :
      (cfg : Config F) (done : List Effect) (results : List Result) (cursor : Text) (s : State)
      → All IsQuiet done
      → All IsQuiet
          (run_baseline hex_digest rfc3339 marshal error_text options m cfg done results cursor
            s).effects
  unfolding run_baseline
  run_baseline-IsQuiet cfg done results cursor s q =
      let next = baseline hex_digest s results m.now in
      let stated = done ++ state_written next ∷ [] in
      let quiet = All-append IsQuiet done (state_written next ∷ []) q (tt, tt) in
      end_baseline-IsQuiet cfg results (m.state_error next) stated
        (write_journal_cursor m cursor stated) quiet
        (write_journal_cursor-IsQuiet cursor stated quiet)

  run_writes-IsQuiet :
      (cfg : Config F) (locking : List Effect) (results : List Result) (cursor : Text) (s : State)
      (q : Queue) (directory mode : Option DiskError)
      → All IsQuiet locking
      → All IsQuiet
          (run_writes hex_digest rfc3339 marshal error_text options m cfg locking results cursor s q
            directory mode true).effects
  unfolding run_writes
  run_writes-IsQuiet cfg locking results cursor s q (some e) mode l =
      report-IsQuiet cfg (locking ++ directory_made ∷ []) results stage_directory e
        (All-append IsQuiet locking (directory_made ∷ []) l (tt, tt))
  run_writes-IsQuiet cfg locking results cursor s q none (some e) l =
      report-IsQuiet cfg (locking ++ directory_made ∷ mode_set ∷ []) results stage_permissions e
        (All-append IsQuiet locking (directory_made ∷ mode_set ∷ []) l (tt, (tt, tt)))
  run_writes-IsQuiet cfg locking results cursor s q none none l =
      run_baseline-IsQuiet cfg (locking ++ directory_made ∷ mode_set ∷ []) results cursor s
        (All-append IsQuiet locking (directory_made ∷ mode_set ∷ []) l (tt, (tt, tt)))

  read_failed-IsQuiet :
      (cfg : Config F) (locking : List Effect) (stage : Stage) (why : Refusal) (e : DiskError)
      → All IsQuiet locking
      → All IsQuiet
          (read_failed hex_digest rfc3339 marshal error_text options m cfg locking stage why
            e).effects
  unfolding read_failed
  read_failed-IsQuiet cfg locking stage why e l =
      elim (Bool-cases (not options.dry_run && storage_unavailable e)) [
        | inl x ↦ rw (x) (report-IsQuiet cfg locking [] stage e l)
        | inr x ↦ rw (x) l
      ]

  run_checks-IsQuiet :
      (cfg : Config F) (locking : List Effect) (s : State) (q : Queue)
      → All IsQuiet locking
      → options.baseline_only ≡ true
      → All IsQuiet
          (run_checks hex_digest rfc3339 marshal error_text options m cfg locking s q).effects
  unfolding run_checks
  run_checks-IsQuiet cfg locking s q l h =
      let out = m.checks_run cfg s.last_run in
      let results = all_results hex_digest rfc3339 marshal error_text options m cfg out.results q in
      let quiet =
        run_writes-IsQuiet cfg locking results out.journal_cursor s q m.directory_error m.mode_error
          l in
      elim (Bool-cases m.cancelled) [
        | inl c ↦ simp (c) l
        | inr c ↦ elim (Bool-cases options.dry_run) [
          | inl d ↦ simp (c, d) l
          | inr d ↦ simp (c, d, h) quiet
        ]
      ]

  run_locked-IsQuiet :
      (cfg : Config F) (l : Option DiskError × List Effect) (s : Read State) (q : Read Queue)
      → All IsQuiet l.1
      → options.baseline_only ≡ true
      → All IsQuiet (run_locked hex_digest rfc3339 marshal error_text options m cfg l s q).effects
  unfolding run_locked
  run_locked-IsQuiet cfg (some e, locking) s q l h =
      read_failed-IsQuiet cfg locking stage_lock lock_refused e l
  run_locked-IsQuiet cfg (none, locking) (broken e) q l h =
      read_failed-IsQuiet cfg locking stage_read_state state_refused e l
  run_locked-IsQuiet cfg (none, locking) (got s) (broken e) l h =
      read_failed-IsQuiet cfg locking stage_read_queue queue_refused e l
  run_locked-IsQuiet cfg (none, locking) (got s) (got q) l h =
      run_checks-IsQuiet cfg locking s q l h

  run_loaded-IsQuiet :
      (c : Loaded F) (debian root : Bool)
      → options.baseline_only ≡ true
      → All IsQuiet
          (run_loaded hex_digest rfc3339 marshal error_text options m c debian root).effects
  unfolding run_loaded
  run_loaded-IsQuiet unavailable debian root h = tt
  run_loaded-IsQuiet too_big debian root h = tt
  run_loaded-IsQuiet (unparsed e) debian root h = tt
  run_loaded-IsQuiet (invalid e) debian root h = tt
  run_loaded-IsQuiet (loaded cfg) false root h = tt
  run_loaded-IsQuiet (loaded cfg) true false h = tt
  run_loaded-IsQuiet (loaded cfg) true true h =
      run_locked-IsQuiet cfg (acquire_lock m.lock) m.state_read m.queue_read
        (acquire_lock-IsQuiet m.lock) h

  -- A baseline run neither writes the queue nor sends a queued event, whatever the machine answers.
  pub run_check-IsQuiet :
      options.baseline_only ≡ true
      → All IsQuiet (run_check hex_digest rfc3339 marshal error_text options m).effects
  unfolding run_check
  run_check-IsQuiet h = run_loaded-IsQuiet m.config m.debian m.root h

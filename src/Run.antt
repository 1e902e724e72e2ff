-- ===== src/Run.antt =====
-- internal/app/app.go, RunCheck: one run of the agent, as the list of what it does to the outside and
-- the way it ends. What the machine answers is a record; the results that are printed are left out.
pub mod Dry
use gotify_vps_agent.Prelude.{
  ℕ, Bool, true, false, not, ◌&&◌, ◌||◌, List, [], ◌∷◌, ◌++◌, map, Option, none, some, ltb, length,
  if◌then◌else◌,
}
use gotify_vps_agent.Prelude.Int.{ℤ, pos}
use gotify_vps_agent.Prelude.Text.{Text, is_empty}
use gotify_vps_agent.Strings.{trim_space}
use gotify_vps_agent.Clock.{Time, is_zero, before}
use gotify_vps_agent.Model.{Result, Event}
use gotify_vps_agent.Config.{Config, TokenError, TokenResult, token_value, token_error}
use gotify_vps_agent.Config.Reader.{Loaded, loaded, unavailable, too_big, unparsed, invalid}
use gotify_vps_agent.State.{State}
use gotify_vps_agent.Engine.{evaluate, baseline}
use gotify_vps_agent.Queue.{Queue, QueuedEvent, ready, retain_checks, add}
use gotify_vps_agent.Notify.{Message, storage_failure}
use gotify_vps_agent.Checks.{delivery_queue}
use gotify_vps_agent.Checks.All.{RunOutput}
use gotify_vps_agent.Storage.{restore_pending_state}
use gotify_vps_agent.Storage.Writes.{
  Stage, stage_lock, stage_read_state, stage_read_queue, stage_directory, stage_permissions,
  stage_baseline, stage_cursor, stage_retry, stage_acknowledgement, stage_text, PersistenceError,
  Persistence, persist_check, DiskError, other_error, storage_unavailable, Reported,
  send_storage_failure,
}
use gotify_vps_agent.Delivery.{
  Action, Delivery, DeliveryResult, delivered, retry_later, retry_unsaved, unacknowledged,
  out_of_fuel, not_built, deliver_queued,
}

pub record CheckOptions : Type 0 where
  pub dry_run : Bool
  pub baseline_only : Bool

-- What a run does to the outside, besides printing: the lock, the state directory, the three files,
-- messages. `lock_directory_made` and `lock_created` are the calls of MkdirAll and of OpenFile with
-- O_CREATE in `acquireLock`, failed or not.
pub data Effect : Type 0 where
  lock_directory_made lock_created : Effect
  directory_made mode_set : Effect
  queue_written : Queue → Effect
  state_written : State → Effect
  cursor_written : Text → Effect
  delivery_action : Action → Effect
  emergency : Message → Effect

-- Why a run stops without a report of a storage failure.
pub data Refusal : Type 0 where
  config_refused wrong_platform not_root lock_refused state_refused queue_refused : Refusal
  run_cancelled client_refused : Refusal
  token_refused : TokenError → Refusal

pub data Ending : Type 0 where
  dry_run_ended baseline_ended nothing_queued not_ready : Ending
  delivery_ended : DeliveryResult → Ending
  refused_run : Refusal → Ending
  reported : Reported DiskError Text → Ending

pub data Read (A : Type 0) : Type 0 where
  got : A → Read A
  broken : DiskError → Read A

-- What os.Open answers for the lock file.
pub data LockFile : Type 0 where
  lock_opened lock_missing : LockFile
  lock_unopened : DiskError → LockFile

-- What the machine answers to `acquireLock`; `lock_busy` is that another process holds the lock.
pub record LockAnswers : Type 0 where
  pub lock_directory : Option DiskError
  pub lock_file : LockFile
  pub lock_create : Option DiskError
  pub lock_busy : Bool

-- `acquireLock`: its error, if it has one, and what it does to the outside.
unfoldable pub hold_lock : LockAnswers → Option DiskError
hold_lock a = if a.lock_busy then some other_error else none

unfoldable pub open_lock : LockAnswers → LockFile → Option DiskError × List Effect
unfolding hold_lock
open_lock a lock_opened = (hold_lock a, lock_directory_made ∷ [])
open_lock a (lock_unopened e) = (some e, lock_directory_made ∷ [])
open_lock a lock_missing = elim a.lock_create [
  | some e ↦ (some e, lock_directory_made ∷ lock_created ∷ [])
  | none ↦ (hold_lock a, lock_directory_made ∷ lock_created ∷ [])
]

unfoldable pub acquire_lock : LockAnswers → Option DiskError × List Effect
unfolding open_lock
acquire_lock a = elim a.lock_directory [
  | some e ↦ (some e, lock_directory_made ∷ [])
  | none ↦ open_lock a a.lock_file
]

-- What the machine answers. `since` is the time that time.Since reads, `checks_run` is checks.Run,
-- and `emergency_send` the send of `reportStorageFailure`, which makes a client of its own.
pub record Machine (F : Type 0) : Type 0 where
  pub config : Loaded F
  pub debian : Bool
  pub root : Bool
  pub lock : LockAnswers
  pub state_read : Read State
  pub queue_read : Read Queue
  pub checks_run : Config F → Time → RunOutput
  pub cancelled : Bool
  pub directory_error : Option DiskError
  pub mode_error : Option DiskError
  pub now : Time
  pub since : Time
  pub queue_error : Queue → Option DiskError
  pub state_error : State → Option DiskError
  pub cursor_error : Text → Option DiskError
  pub token : TokenResult
  pub client_accepted : Config F → Text → Bool
  pub send : List Action → Message → Bool
  pub save : List Action → Queue → Bool
  pub save_error : DiskError
  pub emergency_send : Message → Option Text

pub record Run : Type 0 where
  pub effects : List Effect
  pub ending : Ending

-- The loop that finds the oldest queued event.
oldest_from : Time → List QueuedEvent → Time
oldest_from oldest [] = oldest
oldest_from oldest (e ∷ es) =
    oldest_from (if is_zero oldest || before e.created_at oldest then e.created_at else oldest) es

abbrev refuse_run : List Effect → Refusal → Run
refuse_run effects why = record { effects = effects; ending = refused_run why }

-- `writeJournalCursor`: an empty cursor is not written.
unfoldable pub write_journal_cursor :
    {F : Type 0} → Machine F → Text → List Effect → Option DiskError × List Effect
write_journal_cursor m cursor done =
    let text = trim_space cursor in
    if is_empty text then (none, done) else (m.cursor_error text, done ++ cursor_written text ∷ [])

-- The three saves, which leave their effect behind the others, failed or not.
abbrev saves_of : {F : Type 0} → Machine F → Persistence (List Effect) DiskError
saves_of m = record {
  save_queue = λ q done. (m.queue_error q, done ++ queue_written q ∷ []);
  save_state = λ s done. (m.state_error s, done ++ state_written s ∷ []);
  save_cursor = write_journal_cursor m;
}

module _ {F : Type 0} (hex_digest : Text → Text) (rfc3339 : Time → Text)
    (marshal : Queue → Option Text) (error_text : DiskError → Text) (options : CheckOptions)
    (m : Machine F) where
  -- `reportStorageFailure`
  unfoldable pub report : Config F → List Effect → List Result → Stage → DiskError → Run
  report cfg done results stage e =
      let failure : PersistenceError DiskError = record { stage = stage; err = e } in
      let host = cfg.agent.hostname in
      record {
        effects =
            done
            ++ emergency
                (storage_failure rfc3339 host (stage_text stage) (error_text e) results m.since)
              ∷ [];
        ending =
            reported (
              send_storage_failure rfc3339 error_text m.emergency_send host results failure
                m.since);
      }

  -- The error of the lock, of the state or of the queue, given what was done for the lock.
  unfoldable pub read_failed : Config F → List Effect → Stage → Refusal → DiskError → Run
  read_failed cfg locking stage why e =
      if not options.dry_run && storage_unavailable e
      then report cfg locking [] stage e
      else refuse_run locking why

  unfoldable pub finish_delivery : Config F → List Effect → List Result → Delivery → Run
  finish_delivery cfg done results d =
      let all = done ++ map delivery_action d.actions in
      elim d.result [
        | retry_unsaved ↦ report cfg all results stage_retry m.save_error
        | unacknowledged ↦ report cfg all results stage_acknowledgement m.save_error
        | delivered ↦ record { effects = all; ending = delivery_ended delivered }
        | retry_later ↦ record { effects = all; ending = delivery_ended retry_later }
        | out_of_fuel ↦ record { effects = all; ending = delivery_ended out_of_fuel }
        | not_built id ↦ record { effects = all; ending = delivery_ended (not_built id) }
      ]

  -- From the end of `persistCheck` on.
  unfoldable pub deliver_pending : Config F → List Effect → List Result → Queue → Run
  deliver_pending cfg done results pending =
      if not (ltb 0 (length pending.events))
      then record { effects = done; ending = nothing_queued }
      else if not (ready pending m.now)
      then record { effects = done; ending = not_ready }
      else elim m.token [
        | token_error e ↦ refuse_run done (token_refused e)
        | token_value token ↦
            if m.client_accepted cfg token
            then finish_delivery cfg done results
                (deliver_queued rfc3339 m.send m.save cfg.agent.hostname m.now pending)
            else refuse_run done client_refused
      ]

  -- What follows the two saves of a baseline: their errors, and the effects up to each.
  unfoldable pub end_baseline :
      Config F → List Result → Option DiskError → List Effect → Option DiskError × List Effect → Run
  end_baseline cfg results (some e) stated cursored = report cfg stated results stage_baseline e
  end_baseline cfg results none stated (some e, cursored) =
      report cfg cursored results stage_cursor e
  end_baseline cfg results none stated (none, cursored) = record {
    effects = cursored;
    ending = baseline_ended;
  }

  unfoldable pub run_baseline : Config F → List Effect → List Result → Text → State → Run
  run_baseline cfg done results cursor current =
      let next = baseline hex_digest current results m.now in
      let stated = done ++ state_written next ∷ [] in
      end_baseline cfg results (m.state_error next) stated (write_journal_cursor m cursor stated)

  unfoldable pub run_evaluate : Config F → List Effect → List Result → Text → State → Queue → Run
  run_evaluate cfg done results cursor current pending =
      let (next, events) = evaluate hex_digest current results cfg.agent m.now in
      let (queued, changed) = add marshal (retain_checks pending results) events m.now in
      let (failure, written) = persist_check next queued cursor (saves_of m) done in
      elim failure [
        | some f ↦ report cfg written results f.stage f.err
        | none ↦ deliver_pending cfg written results queued
      ]

  -- The results, with that of the queue if it is asked for.
  unfoldable pub all_results : Config F → List Result → Queue → List Result
  unfolding oldest_from
  all_results cfg results pending =
      if cfg.checks.delivery_queue
      then results
        ++ delivery_queue (pos (length pending.events)) pending.attempts
            (oldest_from 0 pending.events) m.since
          ∷ []
      else results

  -- From the directory on, which a dry run does not reach; what was done for the lock, what
  -- os.MkdirAll and os.Chmod answered and whether this is a baseline run is given.
  unfoldable pub run_writes :
      Config F
      → List Effect
      → List Result
      → Text
      → State
      → Queue
      → Option DiskError
      → Option DiskError
      → Bool
      → Run
  run_writes cfg locking results cursor current pending (some e) mode baseline_only =
      report cfg (locking ++ directory_made ∷ []) results stage_directory e
  run_writes cfg locking results cursor current pending none (some e) baseline_only =
      report cfg (locking ++ directory_made ∷ mode_set ∷ []) results stage_permissions e
  run_writes cfg locking results cursor current pending none none true =
      run_baseline cfg (locking ++ directory_made ∷ mode_set ∷ []) results cursor current
  run_writes cfg locking results cursor current pending none none false =
      run_evaluate cfg (locking ++ directory_made ∷ mode_set ∷ []) results cursor current pending

  unfoldable pub run_checks : Config F → List Effect → State → Queue → Run
  run_checks cfg locking stored pending =
      let current =
        if options.baseline_only then stored else restore_pending_state stored pending in
      let out = m.checks_run cfg current.last_run in
      let results = all_results cfg out.results pending in
      if m.cancelled
      then refuse_run locking run_cancelled
      else if options.dry_run
      then record { effects = locking; ending = dry_run_ended }
      else run_writes cfg locking results out.journal_cursor current pending m.directory_error
          m.mode_error options.baseline_only

  -- From the lock on; whether the lock was taken, what was done for it and what the two files
  -- answered is given.
  unfoldable pub run_locked :
      Config F → Option DiskError × List Effect → Read State → Read Queue → Run
  run_locked cfg (some e, locking) s q = read_failed cfg locking stage_lock lock_refused e
  run_locked cfg (none, locking) (broken e) q =
      read_failed cfg locking stage_read_state state_refused e
  run_locked cfg (none, locking) (got stored) (broken e) =
      read_failed cfg locking stage_read_queue queue_refused e
  run_locked cfg (none, locking) (got stored) (got pending) = run_checks cfg locking stored pending

  -- From the settings on; whether the platform is right and the user is root is given.
  unfoldable pub run_loaded : Loaded F → Bool → Bool → Run
  run_loaded unavailable debian root = refuse_run [] config_refused
  run_loaded too_big debian root = refuse_run [] config_refused
  run_loaded (unparsed e) debian root = refuse_run [] config_refused
  run_loaded (invalid e) debian root = refuse_run [] config_refused
  run_loaded (loaded cfg) false root = refuse_run [] wrong_platform
  run_loaded (loaded cfg) true false = refuse_run [] not_root
  run_loaded (loaded cfg) true true = run_locked cfg (acquire_lock m.lock) m.state_read m.queue_read

  unfoldable pub run_check : Run
  run_check = run_loaded m.config m.debian m.root

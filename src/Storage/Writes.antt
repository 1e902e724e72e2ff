-- ===== src/Storage/Writes.antt =====
-- internal/app/storage.go, `persistCheck`: the queue is written first, then the state, then the
-- cursor. `W` is the state of the disk, and `E` what a write can fail with.
use gotify_vps_agent.Prelude.{
  ◌≡◌, refl, ◌∙◌, ◌⊎◌, Bool, true, false, List, Option, none, some, inl, inr,
}
use gotify_vps_agent.Prelude.Text.{Text, bytes}
use gotify_vps_agent.Clock.{Time}
use gotify_vps_agent.Model.{Result}
use gotify_vps_agent.State.{State}
use gotify_vps_agent.Queue.{Queue}
use gotify_vps_agent.Notify.{Message, storage_failure}

pub data Stage : Type 0 where
  stage_queue stage_state stage_cursor : Stage
  stage_lock stage_read_state stage_read_queue stage_directory stage_permissions : Stage
  stage_baseline stage_retry stage_acknowledgement : Stage

abbrev pub stage_text : Stage → Text
stage_text stage_queue = bytes "notification queue"
stage_text stage_state = bytes "check state"
stage_text stage_cursor = bytes "journal cursor"
stage_text stage_lock = bytes "process lock"
stage_text stage_read_state = bytes "reading check state"
stage_text stage_read_queue = bytes "reading notification queue"
stage_text stage_directory = bytes "state directory"
stage_text stage_permissions = bytes "state directory permissions"
stage_text stage_baseline = bytes "baseline"
stage_text stage_retry = bytes "delivery retry state"
stage_text stage_acknowledgement = bytes "notification acknowledgement"

pub record PersistenceError (E : Type 0) : Type 0 where
  pub stage : Stage
  pub err : E

pub record Persistence (W E : Type 0) : Type 0 where
  pub save_queue : Queue → W → Option E × W
  pub save_state : State → W → Option E × W
  pub save_cursor : Text → W → Option E × W

-- `if err := save(); err != nil { return ... }`, and what follows it.
unfoldable pub stage_of :
    {W E : Type 0}
    → Stage
    → Option E × W
    → (W → Option (PersistenceError E) × W)
    → Option (PersistenceError E) × W
stage_of stage (some e, w) next = (some (record { stage = stage; err = e }), w)
stage_of stage (none, w) next = next w

unfoldable pub persist_check :
    {W E : Type 0} → State → Queue → Text → Persistence W E → W → Option (PersistenceError E) × W
unfolding stage_of
persist_check current pending cursor saves w =
    stage_of stage_queue (saves.save_queue pending w) λ w1.
      stage_of stage_state (saves.save_state current w1)
        λ w2. stage_of stage_cursor (saves.save_cursor cursor w2) λ w3. (none, w3)

-- What holds of a failure and of what follows a success holds of the stage.
stage_of-each :
    {W E : Type 0} (P : Option (PersistenceError E) × W → Type 0) (stage : Stage) (o : Option E × W)
    (next : W → Option (PersistenceError E) × W)
    → ((e : E) → o.0 ≡ some e → P (some (record { stage = stage; err = e }), o.1))
    → (o.0 ≡ none → P (next o.1))
    → P (stage_of stage o next)
unfolding stage_of
stage_of-each P stage (some e, w) next h k = h e refl
stage_of-each P stage (none, w) next h k = k refl

-- A write of one file leaves the others alone, whether it succeeds or not.
pub record Separate {W E : Type 0} (saves : Persistence W E) (on_state on_cursor : W → Text)
    : Type 0 where
  pub queue_keeps_state : (q : Queue) (w : W) → on_state (saves.save_queue q w).1 ≡ on_state w
  pub queue_keeps_cursor : (q : Queue) (w : W) → on_cursor (saves.save_queue q w).1 ≡ on_cursor w
  pub state_keeps_cursor : (s : State) (w : W) → on_cursor (saves.save_state s w).1 ≡ on_cursor w
  pub cursor_keeps_state : (c : Text) (w : W) → on_state (saves.save_cursor c w).1 ≡ on_state w

-- If the write of one file leaves the others alone, then `persist_check` leaves the state file as it
-- was or has saved the queue without an error, and leaves the journal cursor as it was or has saved
-- the queue and then the state without an error.
pub persist_check-order :
    {W E : Type 0} (current : State) (pending : Queue) (cursor : Text) (saves : Persistence W E)
    (on_state on_cursor : W → Text) (w : W)
    → Separate saves on_state on_cursor
    → let after = (persist_check current pending cursor saves w).1 in
      let queued = saves.save_queue pending w in
      ((on_state after ≡ on_state w) ⊎ (queued.0 ≡ none))
      × ((on_cursor after ≡ on_cursor w)
          ⊎ ((queued.0 ≡ none) × ((saves.save_state current queued.1).0 ≡ none)))
unfolding persist_check
persist_check-order {W} {E} current pending cursor saves on_state on_cursor w apart =
    let queued = saves.save_queue pending w in
    let stated = saves.save_state current queued.1 in
    let P : Option (PersistenceError E) × W → Type 0 = λ out.
      ((on_state out.1 ≡ on_state w) ⊎ (queued.0 ≡ none))
      × ((on_cursor out.1 ≡ on_cursor w) ⊎ ((queued.0 ≡ none) × (stated.0 ≡ none))) in
    stage_of-each P stage_queue queued _
      (λ e f. (inl (apart.queue_keeps_state pending w), inl (apart.queue_keeps_cursor pending w)))
      λ q.
        stage_of-each P stage_state stated _
          (λ e f. (
            inr q,
            inl (apart.state_keeps_cursor current queued.1 ∙ apart.queue_keeps_cursor pending w),
          ))
          λ s.
            stage_of-each P stage_cursor (saves.save_cursor cursor stated.1) _
              (λ e f. (inr q, inr (q, s))) λ c. (inr q, inr (q, s))

-- syscall.ENOSPC, EROFS, EDQUOT and EIO, and every other error.
pub data DiskError : Type 0 where
  no_space read_only quota_exceeded input_output other_error : DiskError

-- `storageUnavailable`
unfoldable pub storage_unavailable : DiskError → Bool
storage_unavailable other_error = false
storage_unavailable _ = true

-- What `sendStorageFailure` returns besides the message: the failure it wraps, and whether the
-- emergency notification was delivered.
pub data Reported (E S : Type 0) : Type 0 where
  emergency_failed : PersistenceError E → S → Reported E S
  emergency_delivered : PersistenceError E → Reported E S

-- `sendStorageFailure`; `send` is the client's `Send`, `error_text` the text of the error, and `now`
-- and `clock_text` give the time of the message.
unfoldable pub send_storage_failure :
    {E S : Type 0}
    → (Time → Text)
    → (E → Text)
    → (Message → Option S)
    → Text
    → List Result
    → PersistenceError E
    → Time
    → Reported E S
send_storage_failure clock_text error_text send host results failure now =
    let message =
      storage_failure clock_text host (stage_text failure.stage) (error_text failure.err) results
        now in
    elim (send message) [ some e ↦ emergency_failed failure e | none ↦ emergency_delivered failure ]

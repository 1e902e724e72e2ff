-- ===== src/Delivery.antt =====
-- internal/app/app.go, deliverQueued: the queued events are sent batch by batch, and each batch that
-- is accepted leaves the queue file before the next is sent. What Gotify and the file system answer
-- is asked of two oracles, which see all that has been done before. `rfc3339` is
-- Format(time.RFC3339).
pub mod Conservation
pub mod Order
use gotify_vps_agent.Prelude.{
  ℕ, zero, suc, Bool, true, false, List, [], ◌∷◌, ◌++◌, if◌then◌else◌, ltb, length, take, drop,
}
use gotify_vps_agent.Prelude.Text.{Text}
use gotify_vps_agent.Clock.{Time}
use gotify_vps_agent.Queue.{Queue, QueuedEvent, mark_failure, clear}
use gotify_vps_agent.Notify.{Message, Batch, batch, oversized, build_batch}

-- What is done to the outside, in order; a message that is sent carries its events here, so that a
-- theorem can name them.
pub data Action : Type 0 where
  sent refused : Message → List QueuedEvent → Action
  saved unsaved : Queue → Action

-- How `deliverQueued` returns: every event delivered; a failed delivery, kept for a retry; a batch
-- that cannot be built; and the two persistence errors.
pub data DeliveryResult : Type 0 where
  delivered retry_later retry_unsaved unacknowledged out_of_fuel : DeliveryResult
  not_built : Text → DeliveryResult

pub record Delivery : Type 0 where
  pub pending : Queue
  pub actions : List Action
  pub result : DeliveryResult

-- The queue after a batch has been accepted.
unfoldable pub acknowledged : Queue → ℕ → Queue
acknowledged q count = record (clear q) { events = drop count q.events }

module _ (rfc3339 : Time → Text) (send : List Action → Message → Bool)
    (save : List Action → Queue → Bool) (hostname : Text) (now : Time) where
  -- A failed delivery.
  unfoldable pub postpone : Queue → List Action → Message → List QueuedEvent → Delivery
  postpone q actions message events =
      let failed = mark_failure q now in
      let tried = actions ++ refused message events ∷ [] in
      if save tried failed
      then record { pending = failed; actions = tried ++ saved failed ∷ []; result = retry_later }
      else record {
        pending = failed;
        actions = tried ++ unsaved failed ∷ [];
        result = retry_unsaved;
      }

  -- The body of the loop, given the batch; `again` is the loop itself.
  unfoldable pub deliver_batch :
      (Queue → List Action → Delivery) → Queue → List Action → Batch → Delivery
  unfolding acknowledged postpone
  deliver_batch again q actions (oversized id) = record {
    pending = q;
    actions = actions;
    result = not_built id;
  }
  deliver_batch again q actions (batch message count) =
      let events = take count q.events in
      let rest = acknowledged q count in
      let told = actions ++ sent message events ∷ [] in
      let next = again rest (told ++ saved rest ∷ []) in
      if send actions message
      then (if save told rest then next else record {
        pending = rest;
        actions = told ++ unsaved rest ∷ [];
        result = unacknowledged;
      })
      else postpone q actions message events

  -- The loop of `deliverQueued`, with a round of fuel for each batch.
  unfoldable pub deliver_from : ℕ → Queue → List Action → Delivery
  unfolding deliver_batch
  deliver_from zero q actions = record { pending = q; actions = actions; result = out_of_fuel }
  deliver_from (suc fuel) q actions =
      let body =
        deliver_batch (deliver_from fuel) q actions (build_batch rfc3339 hostname q.events now) in
      if ltb 0 (length q.events)
      then body
      else record { pending = q; actions = actions; result = delivered }

  -- A round delivers an event at least, so one round more than there are events is enough.
  unfoldable pub deliver_queued : Queue → Delivery
  unfolding deliver_from
  deliver_queued q = deliver_from (suc (length q.events)) q []

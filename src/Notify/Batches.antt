-- ===== src/Notify/Batches.antt =====
-- How many events go into one message.
use gotify_vps_agent.Prelude.{
  ℕ, zero, suc, ◌+◌, ◌≤◌, ◌<◌, ◌≡◌, refl, ◌⊎◌, inl, inr, false, List, [], ◌∷◌, arith, ltb→lt,
  not_ltb→le, if◌then◌else◌, ltb, ◌==◌, length, take, Bool-cases,
}
use gotify_vps_agent.Prelude.Text.{Text}
use gotify_vps_agent.Clock.{Time}
use gotify_vps_agent.Queue.{QueuedEvent}
use gotify_vps_agent.Notify.{
  Message, max_message_bytes, build, Batch, batch, oversized, batch_from, build_batch,
}

positive : (c : ℕ) → (suc c == 0) ≡ false
positive c = ground arith

module _ (rfc3339 : Time → Text) (hostname : Text) (events : List QueuedEvent) (now : Time) where
  -- The size of the message of the first `n` events.
  abbrev pub body_length : ℕ → ℕ
  body_length n = length (build rfc3339 hostname (take n events) now).body

  -- The message is that of the first `n` events and fits the limit, `n` being at least one; and either
  -- all events are in it or the next one would break the limit.
  abbrev pub IsFull : Batch → Type 0
  IsFull (batch message n) =
      (message ≡ build rfc3339 hostname (take n events) now)
      × (1 ≤ n)
      × (n ≤ length events)
      × (body_length n ≤ max_message_bytes)
      × ((n ≡ length events) ⊎ (max_message_bytes < body_length (suc n)))
  IsFull (oversized id) = max_message_bytes < body_length 1

  stopped :
      (id : Text) (count : ℕ) (message : Message)
      → count < length events
      → (0 < count
          → (message ≡ build rfc3339 hostname (take count events) now)
            × (body_length count ≤ max_message_bytes))
      → max_message_bytes < body_length (suc count)
      → IsFull (if count == 0 then oversized id else batch message count)
  stopped id zero message l h large = large
  stopped id (suc c) message l h large =
      let (eq, fits) = h (omega arith) in
      rw (positive c) (eq, omega arith, omega arith, fits, inr large)

  batch_from-IsFull :
      (rest : List QueuedEvent) (count : ℕ) (message : Message)
      → count + length rest ≡ length events
      → (0 < count
          → (message ≡ build rfc3339 hostname (take count events) now)
            × (body_length count ≤ max_message_bytes))
      → 0 < count + length rest
      → IsFull (batch_from rfc3339 hostname events now rest count message)
  unfolding batch_from
  batch_from-IsFull [] count message l h p = ground arith
  batch_from-IsFull (e ∷ rest) count message l h p =
      elim (Bool-cases (ltb max_message_bytes (body_length (suc count)))) [
        | inl large ↦ rw large (stopped e.check_id count message (omega arith) h (ltb→lt _ _ large))
        | inr fits ↦ rw fits (
            batch_from-IsFull rest (suc count) _ (omega arith) (λ _. (refl, not_ltb→le _ _ fits))
              (omega arith))
      ]

  -- `BuildBatch` of a queue that is not empty takes as many of the oldest events as fit a message of
  -- 64 KiB, at least one, and fails exactly if the first event alone does not fit.
  pub build_batch-IsFull : 0 < length events → IsFull (build_batch rfc3339 hostname events now)
  unfolding build_batch
  build_batch-IsFull p = batch_from-IsFull events 0 _ (omega arith) (λ h. elim h [ ]) (omega arith)

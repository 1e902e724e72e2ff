-- ===== src/Delivery/Order.antt =====
-- That the delivery loop ends, and what its results mean.
use gotify_vps_agent.Prelude.{
  ℕ, zero, suc, ◌≤◌, ◌<◌, ◌≡◌, refl, inl, inr, Bool, true, false, List, [], ◌∷◌, ◌++◌, arith, ltb,
  length, take, length-drop, Bool-cases, ltb→lt, All, All-drop,
}
use gotify_vps_agent.Prelude.Text.{Text}
use gotify_vps_agent.Clock.{Time}
use gotify_vps_agent.Queue.{Queue, QueuedEvent, clear}
use gotify_vps_agent.Notify.{
  Message, Batch, batch, oversized, build, build_batch, max_message_bytes,
}
use gotify_vps_agent.Notify.Batches.{IsFull, build_batch-IsFull}
use gotify_vps_agent.Delivery.{
  Action, sent, saved, DeliveryResult, delivered, out_of_fuel, Delivery, acknowledged, postpone,
  deliver_batch, deliver_from, deliver_queued,
}

abbrev pub is_out_of_fuel : DeliveryResult → Bool
is_out_of_fuel out_of_fuel = true
is_out_of_fuel _ = false

abbrev pub is_delivered : DeliveryResult → Bool
is_delivered delivered = true
is_delivered _ = false

-- The loop has ended by a test of its own, and with success only if the queue is empty.
abbrev pub Finishes : Delivery → Type 0
Finishes d =
    (is_out_of_fuel d.result ≡ false) × (is_delivered d.result ≡ true → length d.pending.events ≡ 0)

module _ (rfc3339 : Time → Text) (send : List Action → Message → Bool)
    (save : List Action → Queue → Bool) (hostname : Text) (now : Time) where
  deliver_batch-Finishes :
      (again : Queue → List Action → Delivery) (q : Queue) (actions : List Action) (b : Batch)
      → ((p : Queue) (later : List Action)
          → length p.events < length q.events
          → Finishes (again p later))
      → 0 < length q.events
      → IsFull rfc3339 hostname q.events now b
      → Finishes (deliver_batch rfc3339 send save hostname now again q actions b)
  unfolding deliver_batch postpone acknowledged clear
  deliver_batch-Finishes again q actions (oversized id) h p f = ground arith
  deliver_batch-Finishes again q actions (batch m count) h p f =
      let rest = acknowledged q count in
      let told = actions ++ sent m (take count q.events) ∷ [] in
      ground (
        arith,
        h rest (told ++ saved rest ∷ []) (omega (arith, length-drop count q.events, f.1, p)),
      )

  deliver_from-Finishes :
      (fuel : ℕ) (q : Queue) (actions : List Action)
      → length q.events < fuel
      → Finishes (deliver_from rfc3339 send save hostname now fuel q actions)
  unfolding deliver_from
  deliver_from-Finishes zero q actions h = elim h [ ]
  deliver_from-Finishes (suc fuel) q actions h = elim (Bool-cases (ltb 0 (length q.events))) [
    | inl more ↦ rw more (
        deliver_batch-Finishes (deliver_from rfc3339 send save hostname now fuel) q actions
          (build_batch rfc3339 hostname q.events now)
          (λ p later l. deliver_from-Finishes fuel p later (omega arith)) (ltb→lt _ _ more)
          (build_batch-IsFull rfc3339 hostname q.events now (ltb→lt _ _ more)))
    | inr none_left ↦ rw none_left (ground arith)
  ]

  -- Whatever Gotify and the file system answer, the loop of `deliverQueued` ends by itself, in at most
  -- one round for each queued event and one more; and it reports delivery only with an empty queue.
  pub deliver_queued-Finishes :
      (q : Queue) → Finishes (deliver_queued rfc3339 send save hostname now q)
  unfolding deliver_queued
  deliver_queued-Finishes q = deliver_from-Finishes (suc (length q.events)) q [] (omega arith)

module _ (rfc3339 : Time → Text) (send : List Action → Message → Bool)
    (save : List Action → Queue → Bool) (hostname : Text) (now : Time)
    (accepts : (actions : List Action) (m : Message) → send actions m ≡ true)
    (writes : (actions : List Action) (q : Queue) → save actions q ≡ true) where
  -- The message of the event alone is within the limit.
  abbrev pub FitsAlone : QueuedEvent → Type 0
  FitsAlone e = length (build rfc3339 hostname (e ∷ []) now).body ≤ max_message_bytes

  first_fits :
      (events : List QueuedEvent)
      → 0 < length events
      → All FitsAlone events
      → length (build rfc3339 hostname (take 1 events) now).body ≤ max_message_bytes
  first_fits [] p f = absurd (omega arith)
  first_fits (e ∷ es) p f = f.0

  deliver_batch-delivered :
      (again : Queue → List Action → Delivery) (q : Queue) (actions : List Action) (b : Batch)
      → ((p : Queue) (later : List Action)
          → length p.events < length q.events
          → All FitsAlone p.events
          → (again p later).result ≡ delivered)
      → 0 < length q.events
      → All FitsAlone q.events
      → IsFull rfc3339 hostname q.events now b
      → (deliver_batch rfc3339 send save hostname now again q actions b).result ≡ delivered
  unfolding deliver_batch acknowledged clear
  deliver_batch-delivered again q actions (oversized id) h p a f =
      absurd (omega (arith, f, first_fits q.events p a))
  deliver_batch-delivered again q actions (batch m count) h p a f =
      let rest = acknowledged q count in
      let told = actions ++ sent m (take count q.events) ∷ [] in
      rw (accepts actions m, writes told rest)
        (h rest (told ++ saved rest ∷ []) (omega (arith, length-drop count q.events, f.1, p))
          (All-drop FitsAlone count q.events a))

  deliver_from-delivered :
      (fuel : ℕ) (q : Queue) (actions : List Action)
      → length q.events < fuel
      → All FitsAlone q.events
      → (deliver_from rfc3339 send save hostname now fuel q actions).result ≡ delivered
  unfolding deliver_from
  deliver_from-delivered zero q actions h a = elim h [ ]
  deliver_from-delivered (suc fuel) q actions h a = elim (Bool-cases (ltb 0 (length q.events))) [
    | inl more ↦ rw more (
        deliver_batch-delivered (deliver_from rfc3339 send save hostname now fuel) q actions
          (build_batch rfc3339 hostname q.events now)
          (λ p later l. deliver_from-delivered fuel p later (omega arith)) (ltb→lt _ _ more) a
          (build_batch-IsFull rfc3339 hostname q.events now (ltb→lt _ _ more)))
    | inr none_left ↦ rw none_left refl
  ]

  -- If Gotify accepts every message, every save succeeds and no single event is too large for a
  -- message, then `deliverQueued` delivers the whole queue.
  pub deliver_queued-delivered :
      (q : Queue)
      → All FitsAlone q.events
      → (deliver_queued rfc3339 send save hostname now q).result ≡ delivered
  unfolding deliver_queued
  deliver_queued-delivered q a = deliver_from-delivered (suc (length q.events)) q [] (omega arith) a

-- ===== src/Delivery/Conservation.antt =====
-- What happens to each queued event while it is delivered.
use gotify_vps_agent.Prelude.{
  ℕ, zero, suc, ◌≡◌, refl, sym, ap, ◌∙◌, inl, inr, Bool, true, false, List, [], ◌∷◌, ◌++◌,
  append-nil, append_assoc, Option, ltb, length, take, drop, take-append-drop, Bool-cases,
}
use gotify_vps_agent.Prelude.Text.{Text}
use gotify_vps_agent.Clock.{Time}
use gotify_vps_agent.Prelude.Int.{pos}
use gotify_vps_agent.Queue.{Queue, QueuedEvent, mark_failure, clear, trim}
use gotify_vps_agent.Notify.{Message, Batch, batch, oversized, build_batch}
use gotify_vps_agent.Delivery.{
  Action, sent, refused, saved, unsaved, DeliveryResult, unacknowledged, retry_unsaved, Delivery,
  acknowledged, postpone, deliver_batch, deliver_from, deliver_queued,
}

-- The events that Gotify has accepted, in the order in which they were sent.
abbrev pub accepted : List Action → List QueuedEvent
accepted [] = []
accepted (sent m es ∷ later) = es ++ accepted later
accepted (refused m es ∷ later) = accepted later
accepted (saved q ∷ later) = accepted later
accepted (unsaved q ∷ later) = accepted later

-- The events of the last batch that was sent, `batch` if none was.
abbrev pub last_sent : List QueuedEvent → List Action → List QueuedEvent
last_sent batch_events [] = batch_events
last_sent batch_events (sent m es ∷ later) = last_sent es later
last_sent batch_events (refused m es ∷ later) = last_sent batch_events later
last_sent batch_events (saved q ∷ later) = last_sent batch_events later
last_sent batch_events (unsaved q ∷ later) = last_sent batch_events later

accepted-append : (xs ys : List Action) → accepted (xs ++ ys) ≡ accepted xs ++ accepted ys
accepted-append [] ys = refl
accepted-append (sent m es ∷ xs) ys =
    ap (◌++◌ es) (accepted-append xs ys) ∙ sym (append_assoc es (accepted xs) (accepted ys))
accepted-append (refused m es ∷ xs) ys = accepted-append xs ys
accepted-append (saved q ∷ xs) ys = accepted-append xs ys
accepted-append (unsaved q ∷ xs) ys = accepted-append xs ys

last_sent-append :
    (batch_events : List QueuedEvent) (xs ys : List Action)
    → last_sent batch_events (xs ++ ys) ≡ last_sent (last_sent batch_events xs) ys
last_sent-append batch_events [] ys = refl
last_sent-append batch_events (sent m es ∷ xs) ys = last_sent-append es xs ys
last_sent-append batch_events (refused m es ∷ xs) ys = last_sent-append batch_events xs ys
last_sent-append batch_events (saved q ∷ xs) ys = last_sent-append batch_events xs ys
last_sent-append batch_events (unsaved q ∷ xs) ys = last_sent-append batch_events xs ys

-- The batch that was accepted and is still in the file, if there is one.
abbrev pub held_back : DeliveryResult → List Action → List QueuedEvent
held_back unacknowledged actions = last_sent [] actions
held_back _ actions = []

-- The last save of the queue failed.
abbrev pub is_unsaved : DeliveryResult → Bool
is_unsaved unacknowledged = true
is_unsaved retry_unsaved = true
is_unsaved _ = false

module _ (marshal : Queue → Option Text) where
  -- The events that `Save` writes of a queue: those of the trimmed queue.
  abbrev pub kept : Queue → List QueuedEvent
  kept q = (trim marshal (record q { version = pos 1 })).events

  -- The events in the queue file, which held `disk` at first.
  abbrev pub on_disk : List QueuedEvent → List Action → List QueuedEvent
  on_disk disk [] = disk
  on_disk disk (sent m es ∷ later) = on_disk disk later
  on_disk disk (refused m es ∷ later) = on_disk disk later
  on_disk disk (saved q ∷ later) = on_disk (kept q) later
  on_disk disk (unsaved q ∷ later) = on_disk disk later

  on_disk-append :
      (disk : List QueuedEvent) (xs ys : List Action)
      → on_disk disk (xs ++ ys) ≡ on_disk (on_disk disk xs) ys
  on_disk-append disk [] ys = refl
  on_disk-append disk (sent m es ∷ xs) ys = on_disk-append disk xs ys
  on_disk-append disk (refused m es ∷ xs) ys = on_disk-append disk xs ys
  on_disk-append disk (saved q ∷ xs) ys = on_disk-append (kept q) xs ys
  on_disk-append disk (unsaved q ∷ xs) ys = on_disk-append disk xs ys

  -- The file holds what `Save` writes of a queue `p`: the queue that is left or, if its last save
  -- failed, one with the events left behind the batch held back.
  abbrev pub Holds : List QueuedEvent → Delivery → Type 0
  Holds file d =
      (p : Queue) × (p.events ≡ held_back d.result d.actions ++ d.pending.events)
      × (is_unsaved d.result ≡ false → p ≡ d.pending)
      × (file ≡ kept p)

  -- Nothing is lost and nothing is sent twice: the accepted events and those left make up `all`.
  abbrev pub Conserves : List QueuedEvent → List QueuedEvent → Delivery → Type 0
  Conserves disk all d =
      (accepted d.actions ++ d.pending.events ≡ all) × Holds (on_disk disk d.actions) d

module _ (marshal : Queue → Option Text) (rfc3339 : Time → Text)
    (send : List Action → Message → Bool) (save : List Action → Queue → Bool) (hostname : Text)
    (now : Time) (disk all : List QueuedEvent) where
  -- The state of the loop at the start of a round.
  abbrev Consistent : Queue → List Action → Type 0
  Consistent q actions =
      (accepted actions ++ q.events ≡ all) × (on_disk marshal disk actions ≡ kept marshal q)

  sent-accepted :
      (actions : List Action) (m : Message) (es rest : List QueuedEvent) (last : Action)
      → accepted (last ∷ []) ≡ []
      → accepted actions ++ (es ++ rest) ≡ all
      → accepted ((actions ++ sent m es ∷ []) ++ last ∷ []) ++ rest ≡ all
  sent-accepted actions m es rest last n c =
      rw
        (
          accepted-append (actions ++ sent m es ∷ []) (last ∷ []),
          accepted-append actions (sent m es ∷ []),
          n,
        )
        (rw
          (
            append-nil (accepted actions ++ (es ++ [])),
            append-nil es,
            append_assoc (accepted actions) es rest,
          )
          c)

  postpone-Conserves :
      (q : Queue) (actions : List Action) (m : Message) (es : List QueuedEvent)
      → Consistent q actions
      → Conserves marshal disk all (postpone rfc3339 send save hostname now q actions m es)
  unfolding postpone mark_failure
  postpone-Conserves q actions m es c =
      let failed = mark_failure q now in
      let tried = actions ++ refused m es ∷ [] in
      let same : accepted tried ≡ accepted actions =
        accepted-append actions (refused m es ∷ []) ∙ append-nil (accepted actions) in
      elim (Bool-cases (save tried failed)) [
        | inl w ↦ rw w (
          rw (accepted-append tried (saved failed ∷ []), append-nil (accepted tried), same) c.0,
          (failed, refl, λ _. refl, on_disk-append marshal disk tried (saved failed ∷ [])),
        )
        | inr w ↦ rw w (
          rw (accepted-append tried (unsaved failed ∷ []), append-nil (accepted tried), same) c.0,
          (
            q,
            refl,
            λ f. absurd (cc),
            on_disk-append marshal disk tried (unsaved failed ∷ [])
                ∙ on_disk-append marshal disk actions (refused m es ∷ [])
                ∙ c.1,
          ),
        )
      ]

  deliver_batch-Conserves :
      (again : Queue → List Action → Delivery) (q : Queue) (actions : List Action) (b : Batch)
      → ((p : Queue) (later : List Action)
          → Consistent p later
          → Conserves marshal disk all (again p later))
      → Consistent q actions
      → Conserves marshal disk all (deliver_batch rfc3339 send save hostname now again q actions b)
  unfolding deliver_batch acknowledged clear
  deliver_batch-Conserves again q actions (oversized id) h c = (c.0, (q, refl, λ _. refl, c.1))
  deliver_batch-Conserves again q actions (batch m count) h c =
      let es = take count q.events in
      let rest = acknowledged q count in
      let told = actions ++ sent m es ∷ [] in
      let whole : accepted actions ++ (es ++ drop count q.events) ≡ all =
        rw (take-append-drop count q.events) c.0 in
      let last_batch : q.events ≡ last_sent [] (told ++ unsaved rest ∷ []) ++ drop count q.events =
        rw
          (
            last_sent-append [] told (unsaved rest ∷ []),
            last_sent-append [] actions (sent m es ∷ []),
          )
          (sym (take-append-drop count q.events)) in
      elim (Bool-cases (send actions m)) [
        | inr refuses ↦ rw refuses (postpone-Conserves q actions m es c)
        | inl accepts ↦ elim (Bool-cases (save told rest)) [
          | inl w ↦
              rw (accepts, w)
                (h rest (told ++ saved rest ∷ []) (
                  sent-accepted actions m es (drop count q.events) (saved rest) refl whole,
                  on_disk-append marshal disk told (saved rest ∷ []),
                ))
          | inr w ↦
              rw (accepts, w)
                (
                  sent-accepted actions m es (drop count q.events) (unsaved rest) refl whole,
                  (
                    q,
                    last_batch,
                    λ f. absurd (cc),
                    on_disk-append marshal disk told (unsaved rest ∷ [])
                        ∙ on_disk-append marshal disk actions (sent m es ∷ [])
                        ∙ c.1,
                  ),
                )
        ]
      ]

  deliver_from-Conserves :
      (fuel : ℕ) (q : Queue) (actions : List Action)
      → Consistent q actions
      → Conserves marshal disk all (deliver_from rfc3339 send save hostname now fuel q actions)
  unfolding deliver_from
  deliver_from-Conserves zero q actions c = (c.0, (q, refl, λ _. refl, c.1))
  deliver_from-Conserves (suc fuel) q actions c = elim (Bool-cases (ltb 0 (length q.events))) [
    | inl more ↦ rw more (
        deliver_batch-Conserves (deliver_from rfc3339 send save hostname now fuel) q actions
          (build_batch rfc3339 hostname q.events now) (deliver_from-Conserves fuel) c)
    | inr none_left ↦ rw none_left (c.0, (q, refl, λ _. refl, c.1))
  ]

module _ (marshal : Queue → Option Text) (rfc3339 : Time → Text)
    (send : List Action → Message → Bool) (save : List Action → Queue → Bool) (hostname : Text)
    (now : Time) where
  -- Whatever Gotify and the file system answer: the events that Gotify has accepted, in the order in
  -- which they were sent, followed by those still queued, are the events of the queue, so none is
  -- lost and none accepted twice. If the queue file held at first what Save writes of the queue, it
  -- holds at the end what Save writes of the queue that is left or, if the last save failed, of one
  -- with the same events, which the last accepted batch precedes if the save that failed was that of
  -- its acknowledgement.
  pub deliver_queued-Conserves :
      (q : Queue)
      → Conserves marshal
          (kept marshal q)
          q.events
          (deliver_queued rfc3339 send save hostname now q)
  unfolding deliver_queued
  deliver_queued-Conserves q =
      deliver_from-Conserves marshal rfc3339 send save hostname now (kept marshal q) q.events
        (suc (length q.events)) q [] (refl, refl)

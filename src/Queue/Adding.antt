-- ===== src/Queue/Adding.antt =====
-- What `Add` does to the events of one check, and what it leaves alone.
use gotify_vps_agent.Prelude.{
  ◌≡◌, refl, ap, ◌∙◌, Bool, true, false, not, ◌&&◌, ◌||◌, ◌⊎◌, inl, inr, List, [], ◌∷◌, ◌++◌,
  Option, none, some, arith, any, keep, Option-cases, Bool-cases, ltb, length,
}
use gotify_vps_agent.Prelude.Text.{Text, is_empty, text_eq, text_eq_refl}
use gotify_vps_agent.Prelude.Int.{pos}
use gotify_vps_agent.Clock.{Time}
use gotify_vps_agent.Model.{Event, is_occurrence}
use gotify_vps_agent.Queue.{
  Queue, QueuedEvent, same_check, duplicate, last_of, replace_last, supersedes, add_one, add_from,
  add, trim, ready,
}

any-last_of :
    (id : Text) (es : List QueuedEvent)
    → any (same_check id) es ≡ (elim (last_of id es) [ none ↦ false | some e ↦ true ])
unfolding last_of
any-last_of id [] = refl
any-last_of id (e ∷ es) = ground (arith, any-last_of id es)

last_of-append :
    (id : Text) (es : List QueuedEvent) (e : QueuedEvent)
    → same_check id e ≡ true
    → last_of id (es ++ e ∷ []) ≡ some e
unfolding last_of
last_of-append id [] e h = ground arith
last_of-append id (x ∷ es) e h = ground (arith, last_of-append id es e h)

last_of-replace_last :
    (incoming : Event) (es : List QueuedEvent) (l : QueuedEvent)
    → last_of incoming.check_id es ≡ some l
    → last_of incoming.check_id (replace_last incoming es)
      ≡ some (record { event = incoming; created_at = l.created_at })
unfolding last_of replace_last
last_of-replace_last incoming [] l h = ground arith
last_of-replace_last incoming (e ∷ es) l h = ground (
  arith,
  any-last_of incoming.check_id es,
  last_of-replace_last incoming es l,
  text_eq_refl incoming.check_id,
)

-- Why `Add` passes over an event: it names no check or has no fingerprint, it is an occurrence that
-- is queued already, or the last event of its check has its fingerprint.
abbrev Rejected : Event → List QueuedEvent → Type 0
Rejected incoming es =
    ((is_empty incoming.check_id || is_empty incoming.fingerprint) ≡ true)
    ⊎ ((is_occurrence incoming.kind && duplicate es incoming) ≡ true)
    ⊎ ((l : QueuedEvent) × (last_of incoming.check_id es ≡ some l)
        × (text_eq l.fingerprint incoming.fingerprint ≡ true))

abbrev at_time : Time → Event → QueuedEvent
at_time now incoming = record { event = incoming; created_at = now }

add_one-Rejected :
    (now : Time) (incoming : Event) (es : List QueuedEvent)
    → Rejected incoming es
    → add_one now incoming es ≡ (es, false)
unfolding add_one
add_one-Rejected now incoming es (inl p) = ground arith
add_one-Rejected now incoming es (inr (inl p)) = ground arith
add_one-Rejected now incoming es (inr (inr (l, e, p))) = ground arith

-- `Add` passes over an event, appends it, or puts it in the place of the last of its check.
add_one-cases :
    (now : Time) (incoming : Event) (es : List QueuedEvent)
    → (Rejected incoming es × (add_one now incoming es ≡ (es, false)))
      ⊎ (add_one now incoming es ≡ (es ++ at_time now incoming ∷ [], true))
      ⊎ ((l : QueuedEvent) × (last_of incoming.check_id es ≡ some l)
          × (add_one now incoming es ≡ (replace_last incoming es, true)))
unfolding add_one
add_one-cases now incoming es =
    elim (Bool-cases (is_empty incoming.check_id || is_empty incoming.fingerprint)) [
      | inl p ↦ inl (inl p, add_one-Rejected now incoming es (inl p))
      | inr p ↦ elim (Bool-cases (is_occurrence incoming.kind && duplicate es incoming)) [
        | inl q ↦ inl (inr (inl q), add_one-Rejected now incoming es (inr (inl q)))
        | inr q ↦ elim (Option-cases (last_of incoming.check_id es)) [
          | inl e ↦ inr (inl (ground arith))
          | inr (l, e) ↦ elim (Bool-cases (text_eq l.fingerprint incoming.fingerprint)) [
            | inl s ↦
                let why = inr (inr (l, e, s)) in inl (why, add_one-Rejected now incoming es why)
            | inr s ↦ elim (Bool-cases (supersedes incoming l)) [
              | inl u ↦ inr (inr (l, e, ground arith))
              | inr u ↦ inr (inl (ground arith))
            ]
          ]
        ]
      ]
    ]

-- Adding an event a second time, at whatever time, changes nothing.
pub add_one-again :
    (now later : Time) (incoming : Event) (es : List QueuedEvent)
    → let es' = (add_one now incoming es).0 in add_one later incoming es' ≡ (es', false)
add_one-again now later incoming es = elim (add_one-cases now incoming es) [
  | inl (r, e) ↦ rw (ap (λ p. p.0) e) (add_one-Rejected later incoming es r)
  | inr (inl e) ↦ rw (ap (λ p. p.0) e) (
      add_one-Rejected later incoming _ (
        inr (
          inr (
            at_time now incoming,
            last_of-append incoming.check_id es (at_time now incoming)
                (text_eq_refl incoming.check_id),
            text_eq_refl incoming.fingerprint,
          ))))
  | inr (inr (l, o, e)) ↦ rw (ap (λ p. p.0) e) (
      add_one-Rejected later incoming _ (
        inr (
          inr (
            record { event = incoming; created_at = l.created_at },
            last_of-replace_last incoming es l o,
            text_eq_refl incoming.fingerprint,
          ))))
]

abbrev pub others : Text → List QueuedEvent → List QueuedEvent
others id = keep (λ e. not (same_check id e))

others-append :
    (now : Time) (incoming : Event) (es : List QueuedEvent)
    → others incoming.check_id (es ++ at_time now incoming ∷ []) ≡ others incoming.check_id es
others-append now incoming [] = ground (arith, text_eq_refl incoming.check_id)
others-append now incoming (e ∷ es) = ground (arith, others-append now incoming es)

others-replace_last :
    (incoming : Event) (es : List QueuedEvent)
    → others incoming.check_id (replace_last incoming es) ≡ others incoming.check_id es
unfolding replace_last
others-replace_last incoming [] = refl
others-replace_last incoming (e ∷ es) =
    ground (arith, text_eq_refl incoming.check_id, others-replace_last incoming es)

-- Adding an event leaves the queued events of all other checks as they are, in their order.
pub add_one-others :
    (now : Time) (incoming : Event) (es : List QueuedEvent)
    → others incoming.check_id (add_one now incoming es).0 ≡ others incoming.check_id es
add_one-others now incoming es = elim (add_one-cases now incoming es) [
  | inl (r, e) ↦ rw (ap (λ p. p.0) e)
  | inr (inl e) ↦ rw (ap (λ p. p.0) e) (others-append now incoming es)
  | inr (inr (l, o, e)) ↦ rw (ap (λ p. p.0) e) (others-replace_last incoming es)
]

add_from-unchanged :
    (now : Time) (incoming : List Event) (es : List QueuedEvent) (changed : Bool)
    → (add_from now incoming es changed).1 ≡ false
    → (changed ≡ false) × ((add_from now incoming es changed).0 ≡ es)
unfolding add_from
add_from-unchanged now [] es changed h = (h, refl)
add_from-unchanged now (e ∷ rest) es changed h =
    let (next, grew) = add_one now e es in
    let (kept, same) = add_from-unchanged now rest next (changed || grew) h in
    elim (add_one-cases now e es) [
      | inl (r, eq) ↦ (ground arith, same ∙ ap (λ p. p.0) eq)
      | inr (inl eq) ↦ absurd (ground (arith, ap (λ p. p.1) eq))
      | inr (inr (l, o, eq)) ↦ absurd (ground (arith, ap (λ p. p.1) eq))
    ]

-- If `Add` reports no change, it has only trimmed the queue. If it reports a change, the count of
-- failed attempts and the waiting time are gone: the queue is ready at any time, unless trimming has
-- left it empty.
pub add_lem :
    (marshal : Queue → Option Text) (q : Queue) (incoming : List Event) (now later : Time)
    → let (q', changed) = add marshal q incoming now in
      (changed ≡ false → q' ≡ trim marshal q)
      × (changed ≡ true → (q'.attempts ≡ pos 0) × (ready q' later ≡ ltb 0 (length q'.events)))
unfolding add ready trim
add_lem marshal q incoming now later = (
  λ h. ground (arith, h, add_from-unchanged now incoming q.events false h),
  λ h. ground (arith, h),
)

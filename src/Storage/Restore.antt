-- ===== src/Storage/Restore.antt =====
-- `restorePendingState` check by check: each entry depends on its own old value and on the last
-- queued event of its check alone, whatever the order in which Go walks the map.
use gotify_vps_agent.Prelude.{
  ◌≡◌, refl, sym, ap, ◌∙◌, inl, inr, List, [], ◌∷◌, Option, none, some, arith, if◌then◌else◌,
  Bool-cases,
}
use gotify_vps_agent.Prelude.Text.{Text, text_eq, text_eq_iff}
use gotify_vps_agent.Prelude.Dict.{Dict, lookup, insert, lookup-insert}
use gotify_vps_agent.State.{CheckState, State}
use gotify_vps_agent.Queue.{Queue, QueuedEvent, last_of}
use gotify_vps_agent.Storage.{
  latest_from, restore_check, or_zero, store, restore_from, restore_pending_state,
}

-- The entry of a check after the restoration, from its old entry and its last queued event.
abbrev pub restored : Option CheckState → Option QueuedEvent → Option CheckState
restored old none = old
restored old (some e) = elim (restore_check (or_zero old) e) [ none ↦ old | some c ↦ some c ]

abbrev or_latest : Option QueuedEvent → Option QueuedEvent → Option QueuedEvent
or_latest (some e) o = some e
or_latest none o = o

or_latest-none : (o : Option QueuedEvent) → or_latest o none ≡ o
or_latest-none none = refl
or_latest-none (some e) = refl

latest_from-last_of :
    (latest : Dict QueuedEvent) (es : List QueuedEvent) (id : Text)
    → lookup id (latest_from latest es) ≡ or_latest (last_of id es) (lookup id latest)
unfolding latest_from last_of
latest_from-last_of latest [] id = refl
latest_from-last_of latest (e ∷ es) id = ground (
  arith,
  latest_from-last_of (insert e.check_id e latest) es id,
  lookup-insert e.check_id id e latest,
  text_eq_iff e.check_id id,
)

-- No key is repeated.
abbrev Keyed : Dict QueuedEvent → Type 0
Keyed [] = Unit
Keyed ((id, e) ∷ m) = (lookup id m ≡ none) × Keyed m

insert-Keyed :
    (id : Text) (e : QueuedEvent) (m : Dict QueuedEvent) → Keyed m → Keyed (insert id e m)
unfolding insert lookup
insert-Keyed id e [] k = (refl, tt)
insert-Keyed id e ((j, f) ∷ m) k = elim (Bool-cases (text_eq j id)) [
  | inl same ↦ rw same k
  | inr other ↦ rw other (
    ground (arith, lookup-insert id j e m, text_eq_iff id j, text_eq_iff j id),
    insert-Keyed id e m k.1,
  )
]

latest_from-Keyed :
    (latest : Dict QueuedEvent) (es : List QueuedEvent)
    → Keyed latest
    → Keyed (latest_from latest es)
unfolding latest_from
latest_from-Keyed latest [] k = k
latest_from-Keyed latest (e ∷ es) k =
    latest_from-Keyed (insert e.check_id e latest) es (insert-Keyed e.check_id e latest k)

lookup-store :
    (id j : Text) (o : Option CheckState) (checks : Dict CheckState)
    → lookup j (store id o checks) ≡ (
        if text_eq id j
        then (elim o [ none ↦ lookup j checks | some c ↦ some c ])
        else lookup j checks)
lookup-store id j none checks = ground arith
lookup-store id j (some c) checks = lookup-insert id j c checks

restore_from-restored :
    (checks : Dict CheckState) (latest : Dict QueuedEvent) (id : Text)
    → Keyed latest
    → lookup id (restore_from checks latest) ≡ restored (lookup id checks) (lookup id latest)
unfolding restore_from lookup
restore_from-restored checks [] id k = refl
restore_from-restored checks ((j, e) ∷ rest) id k =
    let o = restore_check (or_zero (lookup j checks)) e in
    restore_from-restored (store j o checks) rest id k.1 ∙ (elim (Bool-cases (text_eq j id)) [
      | inl same ↦
          let eq = (text_eq_iff j id).0 same in
          rw (same, lookup-store j id o checks, same, ap (λ i. lookup i rest) (sym eq), k.0)
            (ap (λ i. elim o [ none ↦ lookup id checks | some c ↦ some c ]) eq
              ∙ ap
                  (λ i. (elim (restore_check (or_zero (lookup i checks)) e) [
                    | none ↦ lookup id checks
                    | some c ↦ some c
                  ]))
                  eq)
      | inr other ↦ rw (other, lookup-store j id o checks, other)
    ])

-- After `restorePendingState`, the entry of a check is its old one, unless the last queued event of
-- that check calls for another: then it is what `restore_check` makes of the old entry (or of the
-- zero value) and that event.
pub restore_pending_state_lem :
    (current : State) (pending : Queue) (id : Text)
    → lookup id (restore_pending_state current pending).checks
      ≡ restored (lookup id current.checks) (last_of id pending.events)
unfolding restore_pending_state lookup
restore_pending_state_lem current pending id =
    restore_from-restored current.checks (latest_from [] pending.events) id
      (latest_from-Keyed [] pending.events tt)
    ∙ ap (restored (lookup id current.checks))
        (latest_from-last_of [] pending.events id ∙ or_latest-none (last_of id pending.events))

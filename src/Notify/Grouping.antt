-- ===== src/Notify/Grouping.antt =====
-- Which events a message shows, in which section and order, and with which priority.
use mathlib.Core.List.{Perm, perm_middle}
use mathlib.Core.List.Perm
use gotify_vps_agent.Prelude.{
  ◌≡◌, refl, ◌⊎◌, inl, inr, Bool, true, false, ◌||◌, List, [], ◌∷◌, ◌++◌, arith, All, any,
  append_assoc, keep, if◌then◌else◌, Bool-cases,
}
use gotify_vps_agent.Prelude.Int.{
  ℤ, pos, leb_ℤ, ltb_ℤ, eqb_ℤ, leb_ℤ_refl, leb_ℤ_trans, eqb_ℤ_refl, ltb_ℤ→leb, not_ltb_ℤ→leb,
}
use gotify_vps_agent.Prelude.Text.{Text}
use gotify_vps_agent.Clock.{Time}
use gotify_vps_agent.Model.{status_warning, status_critical, status_eq, is_recovery}
use gotify_vps_agent.Queue.{QueuedEvent}
use gotify_vps_agent.Notify.{
  event_less, insert_event, sort_events, is_critical_section, is_warning_section,
  is_recovery_section, highest_priority, build,
}

-- An event that has a section: a recovery, or one with status WARNING or CRITICAL.
abbrev pub IsShown : QueuedEvent → Type 0
IsShown e =
    (is_recovery e.kind ≡ true)
    ⊎ (status_eq e.status status_critical ≡ true)
    ⊎ (status_eq e.status status_warning ≡ true)

insert_event-perm : (e : QueuedEvent) (es : List QueuedEvent) → Perm (insert_event e es) (e ∷ es)
unfolding insert_event
insert_event-perm e [] = Perm.refl (e ∷ [])
insert_event-perm e (x ∷ xs) = elim (Bool-cases (event_less x e)) [
  | inl less ↦ rw less (Perm.trans (Perm.cons x (insert_event-perm e xs)) (Perm.swap e x xs))
  | inr not_less ↦ rw not_less (Perm.refl (e ∷ x ∷ xs))
]

pub sort_events-perm : (es : List QueuedEvent) → Perm (sort_events es) es
unfolding sort_events
sort_events-perm [] = Perm.refl []
sort_events-perm (e ∷ es) =
    Perm.trans (insert_event-perm e (sort_events es)) (Perm.cons e (sort_events-perm es))

or_left : (a b : Bool) → a ≡ true → (a || b) ≡ true
or_left a b h = ground arith

or_right : (a b : Bool) → b ≡ true → (a || b) ≡ true
or_right a b h = ground arith

-- The number is the highest of `best` and the priorities of the events.
abbrev pub IsHighest : ℤ → List QueuedEvent → ℤ → Type 0
IsHighest best es p =
    (leb_ℤ best p ≡ true)
    × All (λ e. leb_ℤ e.priority p ≡ true) es
    × ((p ≡ best) ⊎ (any (λ e. eqb_ℤ e.priority p) es ≡ true))

IsHighest-cons :
    (best : ℤ) (e : QueuedEvent) (es : List QueuedEvent) (p : ℤ)
    → IsHighest (if ltb_ℤ best e.priority then e.priority else best) es p
    → IsHighest best (e ∷ es) p
IsHighest-cons best e es p h = elim (Bool-cases (ltb_ℤ best e.priority)) [
  | inl more ↦
      let (top, every, which) = rw more at h in
      (
        leb_ℤ_trans best e.priority p (ltb_ℤ→leb best e.priority more) top,
        (top, every),
        elim which [
          | inl same ↦ inr (rw (← same) (or_left (eqb_ℤ p p) _ (eqb_ℤ_refl p)))
          | inr later ↦ inr (or_right (eqb_ℤ e.priority p) _ later)
        ],
      )
  | inr less ↦
      let (top, every, which) = rw less at h in
      (
        top,
        (leb_ℤ_trans e.priority best p (not_ltb_ℤ→leb best e.priority less) top, every),
        elim which [
          | inl same ↦ inl same
          | inr later ↦ inr (or_right (eqb_ℤ e.priority p) _ later)
        ],
      )
]

highest_priority-IsHighest :
    (best : ℤ) (es : List QueuedEvent) → IsHighest best es (highest_priority best es)
unfolding highest_priority
highest_priority-IsHighest best [] = (leb_ℤ_refl best, tt, inl refl)
highest_priority-IsHighest best (e ∷ es) =
    let best' = if ltb_ℤ best e.priority then e.priority else best in
    IsHighest-cons best e es (highest_priority best' es)
      (highest_priority-IsHighest (if ltb_ℤ best e.priority then e.priority else best) es)

abbrev InSection : Bool → Bool → Bool → QueuedEvent → Type 0
InSection c w r e =
    (is_critical_section e ≡ c) × (is_warning_section e ≡ w) × (is_recovery_section e ≡ r)

one_section :
    (e : QueuedEvent)
    → IsShown e
    → InSection true false false e ⊎ InSection false true false e ⊎ InSection false false true e
one_section e h = ground arith

abbrev sections : List QueuedEvent → List QueuedEvent
sections es =
    keep is_critical_section es ++ (keep is_warning_section es ++ keep is_recovery_section es)

partition-perm : (es : List QueuedEvent) → All IsShown es → Perm (sections es) es
partition-perm [] h = Perm.refl []
partition-perm (e ∷ es) h =
    let critical = keep is_critical_section es in
    let warning = keep is_warning_section es in
    let recovery = keep is_recovery_section es in
    let rest = Perm.cons e (partition-perm es h.1) in
    elim (one_section e h.0) [
      | inl (c, w, r) ↦ rw (c, w, r) rest
      | inr (inl (c, w, r)) ↦
          rw (c, w, r) (Perm.trans (perm_middle critical (warning ++ recovery)) rest)
      | inr (inr (c, w, r)) ↦
          rw (c, w, r)
            (rw (← append_assoc critical warning (e ∷ recovery)) (
              Perm.trans (perm_middle (critical ++ warning) recovery)
                (rw (append_assoc critical warning recovery) rest)))
    ]

pub sections-perm :
    (es : List QueuedEvent)
    → All IsShown es
    → Perm
        (sort_events (keep is_critical_section es)
          ++ (sort_events (keep is_warning_section es)
              ++ sort_events (keep is_recovery_section es)))
        es
sections-perm es h =
    Perm.trans
      (Perm.append (sort_events-perm (keep is_critical_section es)) (
        Perm.append (sort_events-perm (keep is_warning_section es))
          (sort_events-perm (keep is_recovery_section es))))
      (partition-perm es h)

keep-All :
    (match : QueuedEvent → Bool) (es : List QueuedEvent) → All (λ e. match e ≡ true) (keep match es)
keep-All match [] = tt
keep-All match (e ∷ es) = elim (Bool-cases (match e)) [
  | inl yes_it_is ↦ rw (yes_it_is) (yes_it_is, keep-All match es)
  | inr no_it_is ↦ rw (no_it_is) (keep-All match es)
]

insert_event-All :
    (P : QueuedEvent → Type 0) (e : QueuedEvent) (es : List QueuedEvent)
    → P e
    → All P es
    → All P (insert_event e es)
unfolding insert_event
insert_event-All P e [] p h = (p, tt)
insert_event-All P e (x ∷ xs) p h = elim (Bool-cases (event_less x e)) [
  | inl less ↦ rw less (h.0, insert_event-All P e xs p h.1)
  | inr not_less ↦ rw not_less (p, h)
]

sort_events-All :
    (P : QueuedEvent → Type 0) (es : List QueuedEvent) → All P es → All P (sort_events es)
unfolding sort_events
sort_events-All P [] h = tt
sort_events-All P (e ∷ es) h = insert_event-All P e (sort_events es) h.0 (sort_events-All P es h.1)

-- The events that a section shows all belong in it.
pub section-All :
    (match : QueuedEvent → Bool) (es : List QueuedEvent)
    → All (λ e. match e ≡ true) (sort_events (keep match es))
section-All match es = sort_events-All (λ e. match e ≡ true) (keep match es) (keep-All match es)

-- The priority of a message is at least 3 and at least that of each event, and it is 3 or the
-- priority of one of the events.
pub build-priority :
    (rfc3339 : Time → Text) (hostname : Text) (es : List QueuedEvent) (now : Time)
    → IsHighest (pos 3) es (build rfc3339 hostname es now).priority
unfolding build
build-priority rfc3339 hostname es now = highest_priority-IsHighest (pos 3) es

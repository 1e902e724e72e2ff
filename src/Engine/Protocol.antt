-- ===== src/Engine/Protocol.antt =====
-- The notifications of one check read as incidents: a problem, then at most one escalation and any
-- number of reminders, then a recovery.
use gotify_vps_agent.Prelude.{
  ◌≡◌, refl, ap, ◌∙◌, true, false, List, [], ◌∷◌, ◌++◌, Option, none, some, arith, All,
  Option-cases, Bool-cases, inl, inr, if◌then◌else◌,
}
use gotify_vps_agent.Prelude.Text.{Text}
use gotify_vps_agent.Clock.{Time}
use gotify_vps_agent.Model.{
  status_critical, Result, EventKind, event_problem, event_escalation, event_recovery,
  event_reminder, Event,
}
use gotify_vps_agent.Config.{Agent}
use gotify_vps_agent.State.{CheckState}
use gotify_vps_agent.Engine.{
  is_ok, described, counted, succeeded, notified_of, evaluate_check, problem_event, new_event,
}
use gotify_vps_agent.Engine.History.{observe, kinds, IsPlain}

-- Where a reader of the notifications stands.
pub data Phase : Type 0 where
  quiet alerted escalated : Phase

-- What the next notification may be.
abbrev pub advance : Phase → EventKind → Option Phase
advance quiet event_problem = some alerted
advance alerted event_escalation = some escalated
advance alerted event_reminder = some alerted
advance escalated event_reminder = some escalated
advance alerted event_recovery = some quiet
advance escalated event_recovery = some quiet
advance _ _ = none

abbrev pub read : Phase → List EventKind → Option Phase
read p [] = some p
read p (k ∷ ks) = elim (advance p k) [ none ↦ none | some q ↦ read q ks ]

abbrev pub Agrees : Phase → CheckState → Type 0
Agrees quiet c = c.notified ≡ false
Agrees alerted c = c.notified ≡ true
Agrees escalated c = (c.notified ≡ true) × (c.current ≡ status_critical)

Agrees-cong :
    (p : Phase) (c d : CheckState)
    → d.notified ≡ c.notified
    → d.current ≡ c.current
    → Agrees p c
    → Agrees p d
Agrees-cong quiet c d n k a = n ∙ a
Agrees-cong alerted c d n k a = n ∙ a
Agrees-cong escalated c d n k a = (n ∙ a.0, k ∙ a.1)

read-append :
    (p q : Phase) (ks ls : List EventKind) → read p ks ≡ some q → read p (ks ++ ls) ≡ read q ls
read-append p q [] ls h = ground arith
read-append p q (k ∷ ks) ls h = elim (Option-cases (advance p k)) [
  | inl e ↦ absurd (ground arith)
  | inr (r, e) ↦ ground (arith, read-append r q ks ls)
]

pub kinds-append : (es fs : List Event) → kinds (es ++ fs) ≡ kinds es ++ kinds fs
kinds-append [] fs = refl
kinds-append (e ∷ es) fs = ap (◌∷◌ e.kind) (kinds-append es fs)

-- The phase after some notifications, and the phase before them where they are out of order.
abbrev settle : Phase → Option Phase → Phase
settle p none = p
settle p (some q) = q

abbrev Follows : Phase → CheckState × List Event → Type 0
Follows p (c, es) =
    (read p (kinds es) ≡ some (settle p (read p (kinds es))))
    × Agrees (settle p (read p (kinds es))) c

pub evaluate_check-plain :
    (hex_digest : Text → Text) (agent : Agent) (now : Time) (c : CheckState) (r : Result)
    → IsPlain r
    → evaluate_check hex_digest agent now c r ≡ (
        if is_ok r.status
        then succeeded hex_digest agent now (described hex_digest c r) r
        else notified_of hex_digest agent now (counted (described hex_digest c r) r now) r)
unfolding evaluate_check
evaluate_check-plain hex_digest agent now c r h = rw (h.0, h.1) (ground arith)

succeeded-Follows :
    (hex_digest : Text → Text) (agent : Agent) (now : Time) (c : CheckState) (r : Result)
    (p : Phase)
    → agent.notify_recovery ≡ true
    → Agrees p c
    → Follows p (succeeded hex_digest agent now c r)
unfolding succeeded new_event
succeeded-Follows hex_digest agent now c r quiet n a = ground arith
succeeded-Follows hex_digest agent now c r alerted n a = ground arith
succeeded-Follows hex_digest agent now c r escalated n a = ground arith

notified_of-Follows :
    (hex_digest : Text → Text) (agent : Agent) (now : Time) (c : CheckState) (r : Result)
    (p : Phase)
    → Agrees p c
    → Follows p (notified_of hex_digest agent now c r)
unfolding notified_of problem_event new_event
notified_of-Follows hex_digest agent now c r quiet a = ground arith
notified_of-Follows hex_digest agent now c r alerted a = ground arith
notified_of-Follows hex_digest agent now c r escalated a = ground arith

evaluate_check-Follows :
    (hex_digest : Text → Text) (agent : Agent) (now : Time) (c : CheckState) (r : Result)
    (p : Phase)
    → agent.notify_recovery ≡ true
    → IsPlain r
    → Agrees p c
    → Follows p (evaluate_check hex_digest agent now c r)
evaluate_check-Follows hex_digest agent now c r p n h a =
    let seen = described hex_digest c r in
    rw (evaluate_check-plain hex_digest agent now c r h) (elim (Bool-cases (is_ok r.status)) [
      | inl e ↦
          rw e
            (succeeded-Follows hex_digest agent now seen r p n (Agrees-cong p c seen refl refl a))
      | inr e ↦ rw e (
          notified_of-Follows hex_digest agent now (counted seen r now) r p
            (Agrees-cong p c (counted seen r now) refl refl a))
    ])

-- Take a check that is not fed by the kernel journal, with recovery notifications enabled, and any
-- sequence of its results at any times. If its entry agrees with a phase (quiet: not notified;
-- alerted: notified; escalated: notified and critical), then its notifications, read from that
-- phase on, are in the order problem, at most one escalation, reminders, recovery, over and over;
-- and the entry agrees with the phase that they lead to.
pub observe-read :
    (hex_digest : Text → Text) (agent : Agent) (c : CheckState) (rs : List (Time × Result))
    (p : Phase)
    → agent.notify_recovery ≡ true
    → All (λ tr. IsPlain tr.1) rs
    → Agrees p c
    → let (c', es) = observe hex_digest agent c rs in
      (q : Phase) × (read p (kinds es) ≡ some q) × Agrees q c'
unfolding observe
observe-read hex_digest agent c [] p n h a = (p, refl, a)
observe-read hex_digest agent c ((now, r) ∷ rs) p n h a =
    let (c', es) = evaluate_check hex_digest agent now c r in
    let (first, agrees) = evaluate_check-Follows hex_digest agent now c r p n h.0 a in
    let (q, later, last) =
      observe-read hex_digest agent c' rs (settle p (read p (kinds es))) n h.1 agrees in
    (
      q,
      rw (kinds-append es (observe hex_digest agent c' rs).1)
          (read-append p (settle p (read p (kinds es))) (kinds es) _ first ∙ later),
      last,
    )

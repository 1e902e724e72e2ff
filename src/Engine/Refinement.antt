-- ===== src/Engine/Refinement.antt =====
-- `Evaluate` treats the checks one by one: a specification without the loop and the map.
use gotify_vps_agent.Prelude.{
  ◌≡◌, refl, sym, ap, ◌∙◌, Bool, true, false, List, [], ◌∷◌, ◌++◌, append_assoc, append-nil, Option,
  none, some, arith, if◌then◌else◌, Bool-cases, inl, inr,
}
use gotify_vps_agent.Prelude.Text.{Text, text_eq, text_eq_iff, text_eq_refl}
use gotify_vps_agent.Prelude.Dict.{Dict, lookup, insert, restrict, lookup-insert, lookup-restrict}
use gotify_vps_agent.Clock.{Time}
use gotify_vps_agent.Model.{Result, Event}
use gotify_vps_agent.Config.{Agent}
use gotify_vps_agent.State.{CheckState, State}
use gotify_vps_agent.Engine.{
  opened, evaluate_check, evaluate_from, active, evaluate, baseline_check, baseline_from, baseline,
}

-- No two results have the same ID.
abbrev pub Distinct : List Result → Type 0
Distinct [] = Unit
Distinct (r ∷ rs) = (active rs r.id ≡ false) × Distinct rs

abbrev pub find_result : Text → List Result → Option Result
find_result id [] = none
find_result id (r ∷ rs) = if text_eq r.id id then some r else find_result id rs

found-id : (id : Text) (rs : List Result) (s : Result) → find_result id rs ≡ some s → s.id ≡ id
found-id id [] s e = ground arith
found-id id (r ∷ rs) s e = ground (arith, found-id id rs s, text_eq_iff r.id id)

active-cong : (rs : List Result) (id j : Text) → id ≡ j → active rs id ≡ active rs j
active-cong rs id j e = ap (active rs) e

insert-inactive :
    (checks : Dict CheckState) (r : Result) (rs : List Result) (id : Text) (c : CheckState)
    → Distinct (r ∷ rs)
    → active rs id ≡ true
    → lookup id (insert r.id c checks) ≡ lookup id checks
insert-inactive checks r rs id c d a =
    ground (arith, lookup-insert r.id id c checks, text_eq_iff r.id id, active-cong rs r.id id)

active-found :
    (id : Text) (rs : List Result)
    → active rs id ≡ (elim (find_result id rs) [ none ↦ false | some s ↦ true ])
active-found id [] = refl
active-found id (r ∷ rs) = ground (arith, active-found id rs)

stored :
    {b : Bool}
    → b ≡ true
    → (c : CheckState) (o : Option CheckState) → (if b then some c else o) ≡ some c
stored e c o = rw e

kept : {b : Bool} → b ≡ true → (o : Option CheckState) → (if b then o else none) ≡ o
kept e o = rw e

module _ (hex_digest : Text → Text) (agent : Agent) (now : Time) where
  -- What one result makes of the entry stored under its ID.
  abbrev pub evolve : Dict CheckState → Result → CheckState × List Event
  evolve checks r = evaluate_check hex_digest agent now (opened (lookup r.id checks) r) r

  abbrev pub raised : Dict CheckState → List Result → List Event
  raised checks [] = []
  raised checks (r ∷ rs) = (evolve checks r).1 ++ raised checks rs

  -- The entry of a check after the results: new if one of them is about it.
  abbrev entry : Dict CheckState → Text → Option Result → Option CheckState
  entry checks id none = lookup id checks
  entry checks id (some r) = some (evolve checks r).0

  raised-cong :
      (m m' : Dict CheckState) (rs : List Result)
      → ((id : Text) → active rs id ≡ true → lookup id m ≡ lookup id m')
      → raised m rs ≡ raised m' rs
  raised-cong m m' [] h = refl
  raised-cong m m' (r ∷ rs) h =
      let tail = raised-cong m m' rs (λ id a. h id (ground arith)) in
      ground (arith, h r.id (ground (arith, text_eq_refl r.id)), tail)

  find_result-active :
      (id : Text) (rs : List Result) → active rs id ≡ false → find_result id rs ≡ none
  find_result-active id [] a = refl
  find_result-active id (r ∷ rs) a = ground (arith, find_result-active id rs)

  evaluate_from-events :
      (checks : Dict CheckState) (events : List Event) (rs : List Result)
      → Distinct rs
      → (evaluate_from hex_digest agent now checks events rs).1 ≡ events ++ raised checks rs
  unfolding evaluate_from
  evaluate_from-events checks events [] d = rw append-nil
  evaluate_from-events checks events (r ∷ rs) d =
      let (c, es) = evolve checks r in
      evaluate_from-events (insert r.id c checks) (events ++ es) rs d.1
      ∙ append_assoc events es (raised (insert r.id c checks) rs)
      ∙ ap (λ es'. events ++ (es ++ es'))
          (raised-cong (insert r.id c checks) checks rs
            (λ id a. insert-inactive checks r rs id c d a))

  entry-insert :
      (checks : Dict CheckState) (r : Result) (rs : List Result) (c : CheckState) (id : Text)
      → active rs r.id ≡ false
      → text_eq r.id id ≡ false
      → (o : Option Result) → find_result id rs ≡ o
      → entry (insert r.id c checks) id o ≡ entry checks id o
  entry-insert checks r rs c id d n none e = rw (lookup-insert r.id id c checks, n)
  entry-insert checks r rs c id d n (some s) e =
      let at_id = found-id id rs s e in rw at_id (ground (arith, lookup-insert r.id id c checks))

  evaluate_from-entry :
      (checks : Dict CheckState) (events : List Event) (rs : List Result) (id : Text)
      → Distinct rs
      → lookup id (evaluate_from hex_digest agent now checks events rs).0
        ≡ entry checks id (find_result id rs)
  unfolding evaluate_from
  evaluate_from-entry checks events [] id d = refl
  evaluate_from-entry checks events (r ∷ rs) id d =
      let (c, es) = evolve checks r in
      elim (Bool-cases (text_eq r.id id)) [
        | inl e ↦ rw e (
            evaluate_from-entry (insert r.id c checks) (events ++ es) rs id d.1
            ∙ ap (entry (insert r.id c checks) id) (
                find_result-active id rs
                  (active-cong rs id r.id (sym ((text_eq_iff r.id id).0 e)) ∙ d.0))
            ∙ lookup-insert r.id id c checks
            ∙ stored e c (lookup id checks))
        | inr e ↦ rw e (
            evaluate_from-entry (insert r.id c checks) (events ++ es) rs id d.1
            ∙ entry-insert checks r rs c id d.0 e (find_result id rs) refl)
      ]

  -- The entry of a check after `Evaluate`, read off its result and its own old entry.
  abbrev pub entry_after : Dict CheckState → Option Result → Option CheckState
  entry_after checks none = none
  entry_after checks (some r) = some (evolve checks r).0

  entry-restrict :
      (checks : Dict CheckState) (rs : List Result) (id : Text) (o : Option Result)
      → find_result id rs ≡ o
      → entry (restrict (active rs) checks) id o ≡ entry_after checks o
  entry-restrict checks rs id none e =
      ground (arith, lookup-restrict (active rs) id checks, active-found id rs)
  entry-restrict checks rs id (some s) e =
      ground
        (arith, found-id id rs s, lookup-restrict (active rs) s.id checks, active-found s.id rs)

  raised-restrict :
      (checks : Dict CheckState) (rs : List Result)
      → raised (restrict (active rs) checks) rs ≡ raised checks rs
  raised-restrict checks rs =
      raised-cong (restrict (active rs) checks) checks rs
        (λ id a. lookup-restrict (active rs) id checks ∙ kept a (lookup id checks))

  -- For results with distinct IDs: after `Evaluate` the entry of every ID is what `evaluate_check`
  -- makes of its result and its own old entry (a healthy one if there was none), and an ID without a
  -- result has no entry; the events are those of the single results, in the order of the results.
  pub evaluate_lem :
      (current : State) (results : List Result)
      → Distinct results
      → let (next, events) = evaluate hex_digest current results agent now in
        ((id : Text) → lookup id next.checks ≡ entry_after current.checks (find_result id results))
        × (events ≡ raised current.checks results)
        × (next.last_run ≡ now)
        × (next.initialized ≡ true)
  unfolding evaluate
  evaluate_lem current results d =
      let kept_checks = restrict (active results) current.checks in
      (
        λ id.
            evaluate_from-entry kept_checks [] results id d
            ∙ entry-restrict current.checks results id (find_result id results) refl,
        evaluate_from-events kept_checks [] results d ∙ raised-restrict current.checks results,
        refl,
        refl,
      )

module _ (hex_digest : Text → Text) where
  baseline_entry : Time → Dict CheckState → Text → Option Result → Option CheckState
  baseline_entry now checks id none = lookup id checks
  baseline_entry now checks id (some r) = some (baseline_check hex_digest r now)

  baseline_from-entry :
      (now : Time) (checks : Dict CheckState) (rs : List Result) (id : Text)
      → Distinct rs
      → lookup id (baseline_from hex_digest now checks rs)
        ≡ baseline_entry now checks id (find_result id rs)
  unfolding baseline_from baseline_entry
  baseline_from-entry now checks [] id d = refl
  baseline_from-entry now checks (r ∷ rs) id d =
      let c = baseline_check hex_digest r now in
      let rest = baseline_from-entry now (insert r.id c checks) rs id d.1 in
      ground (
        arith,
        rest,
        lookup-insert r.id id c checks,
        text_eq_iff r.id id,
        active-cong rs r.id id,
        active-found id rs,
      )

  -- For results with distinct IDs: whatever the state was before, the baseline holds the entry
  -- `baseline_check` of each result under its ID, and no other entry.
  pub baseline_lem :
      (current : State) (results : List Result) (now : Time) (id : Text)
      → Distinct results
      → lookup id (baseline hex_digest current results now).checks
        ≡ (elim (find_result id results) [
          | none ↦ none
          | some r ↦ some (baseline_check hex_digest r now)
        ])
  unfolding baseline baseline_entry lookup
  baseline_lem current results now id d = ground (arith, baseline_from-entry now [] results id d)

-- ===== src/Queue/Trim.antt =====
-- The limits of the queue, and which events they cost.
use native.Mathlib.Nat.{zero-add, suc-add}
use gotify_vps_agent.Prelude.{
  ℕ, zero, suc, ◌+◌, ◌-◌, ◌≤◌, ◌<◌, ◌≡◌, refl, ap, ◌∙◌, ◌⊎◌, inl, inr, false, List, [], ◌∷◌, Option,
  arith, leb, length, drop, length-drop, Bool-cases, ltb, ◌≢◌, leb→le,
}
use gotify_vps_agent.Prelude.Text.{Text}
use gotify_vps_agent.Queue.{
  Queue, QueuedEvent, max_events, max_bytes, encoded_length, trim_bytes, trim,
}

drop-drop {ℓ} : {A : Type ℓ} (n k : ℕ) (xs : List A) → drop k (drop n xs) ≡ drop (n + k) xs
drop-drop zero k xs = rw zero-add
drop-drop (suc n) zero [] = rw suc-add
drop-drop (suc n) (suc k) [] = rw suc-add
drop-drop (suc n) k (x ∷ xs) = rw suc-add (drop-drop n k xs)

module _ (marshal : Queue → Option Text) where
  -- The queue holds at most 100 events, and is empty or its file at most 1 MiB long.
  abbrev pub Fits : Queue → Type 0
  Fits q =
      (length q.events ≤ max_events)
      × ((q.events ≡ []) ⊎ (encoded_length marshal q + 1 ≤ max_bytes))

  -- Some event is left, and the file is too large.
  abbrev TooLarge : Queue → Type 0
  TooLarge q = (q.events ≢ []) × (max_bytes < encoded_length marshal q + 1)

  -- What `trim_bytes` leaves is a rest of the list that fits, and no longer rest does.
  trim_bytes-rest :
      (q : Queue) (es : List QueuedEvent)
      → (k : ℕ) × (trim_bytes marshal q es ≡ drop k es)
        × ((drop k es ≡ [])
            ⊎ (encoded_length marshal (record q { events = drop k es }) + 1 ≤ max_bytes))
        × ((j : ℕ) → j < k → TooLarge (record q { events = drop j es }))
  unfolding trim_bytes
  trim_bytes-rest q [] = (0, refl, inl refl, λ j h. elim h [ ])
  trim_bytes-rest q (e ∷ es) =
      elim (Bool-cases
        (leb (encoded_length marshal (record q { events = e ∷ es }) + 1) max_bytes)) [
          | inl fits ↦ (0, rw fits refl, inr (leb→le _ _ fits), λ j h. elim h [ ])
          | inr large ↦
              let (k, eq, ok, least) = trim_bytes-rest q es in
              (suc k, rw large eq, ok, λ j h. below k least large j h)
        ]
    where
      below :
          (k : ℕ)
          → ((j : ℕ) → j < k → TooLarge (record q { events = drop j es }))
          → leb (encoded_length marshal (record q { events = e ∷ es }) + 1) max_bytes ≡ false
          → (j : ℕ) → j < suc k
          → TooLarge (record q { events = drop j (e ∷ es) })
      below k least large zero h = (λ p. cc, ground arith)
      below k least large (suc j) h = least j (omega arith)

  too_early :
      (q : Queue) (n k j : ℕ)
      → j < n + k
      → Fits (record q { events = drop j q.events })
      → ((i : ℕ) → i < k → TooLarge (record q { events = drop i (drop n q.events) }))
      → n ≡ length q.events - max_events
      → ⊥
  too_early q n k j h f least e = elim (Bool-cases (ltb j n)) [
    | inl early ↦ ground (arith, length-drop j q.events)
    | inr late ↦
        let (some_left, large) = least (j - n) (ground arith) in
        let same : drop (j - n) (drop n q.events) ≡ drop j q.events =
          drop-drop n (j - n) q.events ∙ ap (λ i. drop i q.events) (ground arith) in
        elim (f.1) [
          | inl none_left ↦ some_left (same ∙ none_left)
          | inr small ↦
              absurd
                (omega (arith, ap (λ es. encoded_length marshal (record q { events = es })) same))
        ]
  ]

  -- `trim` drops the oldest events, as few as it can, until at most 100 are left and the file is at
  -- most 1 MiB long or no event is left: with fewer dropped, the queue would break a limit. Nothing
  -- else changes.
  pub trim_lem :
      (q : Queue)
      → Fits (trim marshal q)
        × ((k : ℕ) × (trim marshal q ≡ record q { events = drop k q.events })
            × ((j : ℕ) → j < k → ¬ Fits (record q { events = drop j q.events })))
  unfolding trim
  trim_lem q =
      let n = length q.events - max_events in
      let (k, eq, fits, least) = trim_bytes-rest q (drop n q.events) in
      (
        rw eq (omega (arith, length-drop k (drop n q.events), length-drop n q.events), fits),
        (
          n + k,
          rw (eq, drop-drop n k q.events) refl,
          λ j h f. too_early q n k j h f (λ i l. least i l) (omega arith),
        ),
      )

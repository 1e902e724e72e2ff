-- ===== src/Queue/Files.antt =====
-- The queue file: what `Load` accepts, and that it reads back what `Save` wrote.
use gotify_vps_agent.Prelude.{
  suc, ◌≤◌, ◌≡◌, refl, ◌∙◌, ap, true, false, not, ◌||◌, inl, inr, List, [], ◌∷◌, ◌++◌, map, Option,
  some, arith, ltb, length, All, Bool-cases, Option-cases, le→not_ltb,
}
use gotify_vps_agent.Prelude.Int.{pos, ltb_ℤ, eqb_ℤ}
use gotify_vps_agent.Prelude.Text.{Text}
use gotify_vps_agent.Textsafe.Safety.{sanitize_bounds}
use gotify_vps_agent.File.{
  ReadOutcome, missing, unopened, unread, contents, Decoded, whole, done, decoded, Ensures,
  Ensures-done, Ensures->>=, Ensures-refuse, Ensures-true, unsupported_version, metadata_invalid,
  invalid_event, read_limited, read_limited-fits,
}
use gotify_vps_agent.Queue.{
  Queue, QueuedEvent, max_events, max_bytes, is_invalid, sanitize_event, load_events, load_value,
  load, trim, save, new,
}
use gotify_vps_agent.Queue.Trim.{trim_lem}

-- An event as `Load` returns it.
abbrev pub IsSound : QueuedEvent → Type 0
IsSound e = (is_invalid e ≡ false) × (length e.title ≤ 256) × (length e.message ≤ 4096)

abbrev pub IsLoaded : Queue → Type 0
IsLoaded q =
    (eqb_ℤ q.version (pos 1) ≡ true)
    × (length q.events ≤ max_events)
    × (ltb_ℤ q.attempts (pos 0) ≡ false)
    × All IsSound q.events

is_invalid-sanitize_event : (e : QueuedEvent) → is_invalid (sanitize_event e) ≡ is_invalid e
unfolding is_invalid sanitize_event
is_invalid-sanitize_event e = refl

sanitize_event-IsSound : (e : QueuedEvent) → is_invalid e ≡ false → IsSound (sanitize_event e)
unfolding sanitize_event
sanitize_event-IsSound e h = (
  is_invalid-sanitize_event e ∙ h,
  (sanitize_bounds e.title (pos 256)).0,
  (sanitize_bounds e.message (pos 4096)).0,
)

load_events-IsSound :
    (es : List QueuedEvent)
    → Ensures (λ fs. All IsSound fs × (length fs ≡ length es)) (load_events es)
unfolding load_events
load_events-IsSound [] = (tt, refl)
load_events-IsSound (e ∷ es) = Ensures-refuse _ (is_invalid e) invalid_event _ λ valid.
    Ensures->>= _ _ (load_events es) _ (load_events-IsSound es)
      λ fs s. ((sanitize_event-IsSound e valid, s.0), ap suc s.1)

load_value-IsLoaded : (q : Queue) → Ensures IsLoaded (load_value q)
unfolding load_value
load_value-IsLoaded q = Ensures-refuse _ (not (eqb_ℤ q.version (pos 1))) unsupported_version _ λ v.
    Ensures-refuse _ (ltb max_events (length q.events) || ltb_ℤ q.attempts (pos 0)) metadata_invalid
      _
      λ m.
        Ensures->>= _ _ (load_events q.events) _ (load_events-IsSound q.events)
          λ es s. (ground arith, ground arith, ground arith, s.0)

new-IsLoaded : IsLoaded new
unfolding new
new-IsLoaded = (refl, omega arith, refl, tt)

-- A queue that `Load` returns, from whatever file, has version 1, at most 100 events and no negative
-- count of attempts; each event names its check and its fingerprint in at most 128 bytes each, and
-- its title and message have at most 256 and 4096 bytes.
pub load-IsLoaded :
    (decode : Text → Decoded Queue) (file : ReadOutcome) (q : Queue)
    → load decode file ≡ done q
    → IsLoaded q
load-IsLoaded decode file q h = Ensures-done IsLoaded (load decode file) q (every file) h
  where
    every : (f : ReadOutcome) → Ensures IsLoaded (load decode f)
    every missing = unfold load in new-IsLoaded
    every unopened = unfold load in tt
    every unread = unfold load in tt
    every (contents text) =
        unfold load in
        Ensures->>= _ _ (read_limited max_bytes text) _ (Ensures-true (read_limited max_bytes text))
          λ bytes u.
            Ensures->>= _ _ (decoded (decode bytes)) _ (Ensures-true (decoded (decode bytes)))
              λ value w. load_value-IsLoaded value

load_events-valid :
    (es : List QueuedEvent)
    → All (λ e. is_invalid e ≡ false) es
    → load_events es ≡ done (map sanitize_event es)
unfolding load_events
load_events-valid [] v = refl
load_events-valid (e ∷ es) v = rw (v.0, load_events-valid es v.1)

load_value-valid :
    (q : Queue)
    → eqb_ℤ q.version (pos 1) ≡ true
    → length q.events ≤ max_events
    → ltb_ℤ q.attempts (pos 0) ≡ false
    → All (λ e. is_invalid e ≡ false) q.events
    → load_value q ≡ done (record q { events = map sanitize_event q.events })
unfolding load_value
load_value-valid q n l a v =
    rw (n, a, le→not_ltb max_events (length q.events) l, load_events-valid q.events v)

save-done :
    (marshal : Queue → Option Text) (q : Queue) (text : Text)
    → save marshal q ≡ done text
    → (t : Text) × (marshal (trim marshal (record q { version = pos 1 })) ≡ some t)
      × (text ≡ t ++ 10 ∷ [])
      × (length text ≤ max_bytes)
unfolding save
save-done marshal q text s =
    elim (Option-cases (marshal (trim marshal (record q { version = pos 1 })))) [
      | inl e ↦ absurd (ground arith)
      | inr (t, e) ↦ elim (Bool-cases (ltb max_bytes (length (t ++ 10 ∷ [])))) [
        | inl large ↦ absurd (ground arith)
        | inr fits ↦ (t, e, ground arith, ground arith)
      ]
    ]

-- If the decoder reads the trimmed queue back from what the encoder wrote of it, newline included,
-- then `Load` returns from the file that `Save` wrote the trimmed queue, its texts sanitized once
-- more. The events of the trimmed queue must be valid and the count of attempts not negative.
pub load-save :
    (marshal : Queue → Option Text) (decode : Text → Decoded Queue) (q : Queue) (text : Text)
    → save marshal q ≡ done text
    → ltb_ℤ q.attempts (pos 0) ≡ false
    → let kept = trim marshal (record q { version = pos 1 }) in
      ((t : Text) → marshal kept ≡ some t → decode (t ++ 10 ∷ []) ≡ whole kept)
      → All (λ e. is_invalid e ≡ false) kept.events
      → load decode (contents text) ≡ done (record kept { events = map sanitize_event kept.events })
unfolding load
load-save marshal decode q text s a back v =
    let kept = trim marshal (record q { version = pos 1 }) in
    let (t, e, eq, fits) = save-done marshal q text s in
    let (limits, _) = trim_lem marshal (record q { version = pos 1 }) in
    let read : decode text ≡ whole kept = ap decode eq ∙ back t e in
    rw (read_limited-fits max_bytes text fits, read)
      (load_value-valid kept (unfold trim in refl) limits.0 (unfold trim in a) v)

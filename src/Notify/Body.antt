-- ===== src/Notify/Body.antt =====
-- The body of a message, which `Build` puts together: its sections, their entries and the last line.
use mathlib.Core.List.{Perm}
use gotify_vps_agent.Prelude.{
  suc, ◌≡◌, refl, sym, subst, Bool, true, false, List, [], ◌∷◌, ◌++◌, All, arith, ltb, length, keep,
  if◌then◌else◌, inl, inr, Bool-cases,
}
use gotify_vps_agent.Prelude.Text.{Text, bytes}
use gotify_vps_agent.Clock.{Time, is_zero}
use gotify_vps_agent.Queue.{QueuedEvent}
use gotify_vps_agent.Notify.{
  escape_markdown, marker, event_less, insert_event, sort_events, is_critical_section,
  is_warning_section, is_recovery_section, render_event, render_events, render_section, build,
}
use gotify_vps_agent.Notify.Grouping.{IsShown, sections-perm, section-All}
use gotify_vps_agent.Notify.Escaping.{IsEscaped, escape_markdown-IsEscaped}

-- `P e line` says that `line` is what a message writes of the event `e`.
module _ (P : QueuedEvent → Text → Type 0) where
  -- The entries of the events, one after the other.
  abbrev pub Entries : List QueuedEvent → Text → Type 0
  Entries [] t = t ≡ []
  Entries (e ∷ es) t =
      (line : Text) × (later : Text) × P e line × Entries es later × (t ≡ line ++ later)

  -- A section: a heading, the entries and an empty line, or nothing at all if no event is in it.
  abbrev pub Section : Text → List QueuedEvent → Text → Type 0
  Section name [] t = t ≡ []
  Section name (e ∷ es) t =
      (entries : Text) × Entries (e ∷ es) entries
      × (t ≡ bytes "## " ++ name ++ (10 ∷ []) ++ entries ++ (10 ∷ []))

  -- The three sections and the last line.
  abbrev pub Body : List QueuedEvent → List QueuedEvent → List QueuedEvent → Text → Text → Type 0
  Body critical warning recovery checked_at t =
      (first : Text) × (second : Text) × (third : Text) × Section (bytes "CRITICAL") critical first
      × Section (bytes "WARNING") warning second
      × Section (bytes "RECOVERY") recovery third
      × (t ≡ first ++ second ++ third ++ bytes "Checked: `" ++ checked_at ++ bytes "`")

-- The entry of an event: its title and message, escaped, and what else belongs to the line.
abbrev pub IsEntry : (Time → Text) → QueuedEvent → Text → Type 0
IsEntry rfc3339 e line =
    (title : Text) × (message : Text) × (title ≡ escape_markdown e.title)
    × (message ≡ escape_markdown e.message)
    × IsEscaped false title
    × IsEscaped false message
    × (line
        ≡ bytes "- **"
          ++ title
          ++ marker e.kind
          ++ bytes "**"
          ++ (if is_zero e.created_at then [] else bytes " [" ++ rfc3339 e.created_at ++ bytes "]")
          ++ (32 ∷ 0xe2 ∷ 0x80 ∷ 0x94 ∷ 32 ∷ [])
          ++ message
          ++ (10 ∷ []))

insert_event-cons :
    (e : QueuedEvent) (xs : List QueuedEvent)
    → (y : QueuedEvent) × (ys : List QueuedEvent) × (insert_event e xs ≡ y ∷ ys)
unfolding insert_event
insert_event-cons e [] = (e, [], refl)
insert_event-cons e (x ∷ xs) = elim (Bool-cases (event_less x e)) [
  | inl less ↦ rw less (x, insert_event e xs, refl)
  | inr not_less ↦ rw not_less (e, x ∷ xs, refl)
]

module _ (rfc3339 : Time → Text) (P : QueuedEvent → Text → Type 0)
    (each : (e : QueuedEvent) → P e (render_event rfc3339 e)) where
  render_events-Entries : (es : List QueuedEvent) → Entries P es (render_events rfc3339 es)
  unfolding render_events
  render_events-Entries [] = refl
  render_events-Entries (e ∷ es) =
      (render_event rfc3339 e, render_events rfc3339 es, each e, render_events-Entries es, refl)

  section_text : Text → List QueuedEvent → Text
  section_text name es = bytes "## " ++ name ++ (10 ∷ []) ++ render_events rfc3339 es ++ (10 ∷ [])

  section_text-Section :
      (name : Text) (items : List QueuedEvent)
      → Section P name
          (sort_events items)
          (if ltb 0 (length items) then section_text name (sort_events items) else [])
  unfolding sort_events section_text
  section_text-Section name [] = refl
  section_text-Section name (e ∷ es) =
      let (y, ys, cut) = insert_event-cons e (sort_events es) in
      let nonempty : ltb 0 (suc (length es)) ≡ true = ground arith in
      rw (nonempty) (
        subst (λ zs. Section P name zs (section_text name zs)) (sym cut)
          (render_events rfc3339 (y ∷ ys), render_events-Entries (y ∷ ys), refl))

  render_section-Section :
      (name : Text) (match : QueuedEvent → Bool) (es : List QueuedEvent)
      → Section P name (sort_events (keep match es)) (render_section rfc3339 name match es)
  unfolding render_section section_text
  render_section-Section name match es = section_text-Section name (keep match es)

  build-Body :
      (hostname : Text) (es : List QueuedEvent) (now : Time)
      → Body P
          (sort_events (keep is_critical_section es))
          (sort_events (keep is_warning_section es))
          (sort_events (keep is_recovery_section es))
          (rfc3339 now)
          (build rfc3339 hostname es now).body
  unfolding build
  build-Body hostname es now = (
    render_section rfc3339 (bytes "CRITICAL") is_critical_section es,
    render_section rfc3339 (bytes "WARNING") is_warning_section es,
    render_section rfc3339 (bytes "RECOVERY") is_recovery_section es,
    render_section-Section (bytes "CRITICAL") is_critical_section es,
    render_section-Section (bytes "WARNING") is_warning_section es,
    render_section-Section (bytes "RECOVERY") is_recovery_section es,
    refl,
  )

-- The events in the sections of a body: each one of `es` in one section, and in the right one.
abbrev pub IsGrouped : (Time → Text) → List QueuedEvent → Time → Text → Type 0
IsGrouped rfc3339 es now t =
    (critical : List QueuedEvent) × (warning : List QueuedEvent) × (recovery : List QueuedEvent)
    × Perm (critical ++ (warning ++ recovery)) es
    × All (λ e. is_critical_section e ≡ true) critical
    × All (λ e. is_warning_section e ≡ true) warning
    × All (λ e. is_recovery_section e ≡ true) recovery
    × Body (λ e line. line ≡ render_event rfc3339 e) critical warning recovery (rfc3339 now) t

-- If every event is a recovery or has status WARNING or CRITICAL, the body of the message that Build
-- makes of the events consists of a section CRITICAL, a section WARNING, a section RECOVERY, each
-- left out if it is empty, and the line with the time; the sections show each event exactly once,
-- recoveries under RECOVERY and the others under their status.
pub build-IsGrouped :
    (rfc3339 : Time → Text) (hostname : Text) (es : List QueuedEvent) (now : Time)
    → All IsShown es
    → IsGrouped rfc3339 es now (build rfc3339 hostname es now).body
build-IsGrouped rfc3339 hostname es now h = (
  sort_events (keep is_critical_section es),
  sort_events (keep is_warning_section es),
  sort_events (keep is_recovery_section es),
  sections-perm es h,
  section-All is_critical_section es,
  section-All is_warning_section es,
  section-All is_recovery_section es,
  build-Body rfc3339 (λ e line. line ≡ render_event rfc3339 e) (λ e. refl) hostname es now,
)

render_event-IsEntry :
    (rfc3339 : Time → Text) (e : QueuedEvent) → IsEntry rfc3339 e (render_event rfc3339 e)
unfolding render_event
render_event-IsEntry rfc3339 e = (
  escape_markdown e.title,
  escape_markdown e.message,
  refl,
  refl,
  escape_markdown-IsEscaped e.title,
  escape_markdown-IsEscaped e.message,
  refl,
)

-- Whatever the titles and messages of the events hold: in the body of the message that Build makes of
-- them, each event of a section has one line, of a fixed form, which holds its title and its message
-- escaped. An escaped text has no line break and no angle bracket, and each of its characters
-- * _ ` [ ] \ stands behind a backslash of its own.
pub build-IsEscaped :
    (rfc3339 : Time → Text) (hostname : Text) (es : List QueuedEvent) (now : Time)
    → Body
        (IsEntry rfc3339)
        (sort_events (keep is_critical_section es))
        (sort_events (keep is_warning_section es))
        (sort_events (keep is_recovery_section es))
        (rfc3339 now)
        (build rfc3339 hostname es now).body
build-IsEscaped rfc3339 hostname es now =
    build-Body rfc3339 (IsEntry rfc3339) (render_event-IsEntry rfc3339) hostname es now

-- ===== src/Tests/Notify.antt =====
-- Rendering.
use gotify_vps_agent.Prelude.{◌≡◌, refl, keep, ◌∷◌, ◌++◌, arith}
use gotify_vps_agent.Prelude.Text.{bytes, decimal}
use gotify_vps_agent.Notify.{
  escape_markdown, build_batch, build_title, build, sort_events, is_critical_section,
  is_warning_section, is_recovery_section,
}
use gotify_vps_agent.Prelude.Int.{pos}
use gotify_vps_agent.Notify.Grouping.{IsHighest, build-priority}
use gotify_vps_agent.Notify.Body.{Body, IsEntry, IsGrouped, build-IsGrouped, build-IsEscaped}
use gotify_vps_agent.Notify.Batches.{IsFull, build_batch-IsFull}
use gotify_vps_agent.Tests.Fixtures.{clock_text, two_events}

escaped : escape_markdown (bytes "a*b" ++ 13 ∷ 10 ∷ bytes "<") ≡ bytes "a" ++ 92 ∷ bytes "*b &lt;"
unfolding escape_markdown
escaped = refl

titled : build_title (bytes "vps") two_events ≡ bytes "[vps] 2 VPS events"
unfolding build_title decimal
titled = refl

build-IsGrouped_example :
    IsGrouped clock_text two_events 9 (build clock_text (bytes "vps") two_events 9).body
build-IsGrouped_example = build-IsGrouped clock_text (bytes "vps") two_events 9 (ground arith)

build-IsEscaped_example :
    Body
      (IsEntry clock_text)
      (sort_events (keep is_critical_section two_events))
      (sort_events (keep is_warning_section two_events))
      (sort_events (keep is_recovery_section two_events))
      (clock_text 9)
      (build clock_text (bytes "vps") two_events 9).body
build-IsEscaped_example = build-IsEscaped clock_text (bytes "vps") two_events 9

build-priority_example :
    IsHighest (pos 3) two_events (build clock_text (bytes "vps") two_events 9).priority
build-priority_example = build-priority clock_text (bytes "vps") two_events 9

build_batch-IsFull_example :
    IsFull clock_text (bytes "vps") two_events 9 (build_batch clock_text (bytes "vps") two_events 9)
build_batch-IsFull_example = build_batch-IsFull clock_text (bytes "vps") two_events 9 (omega arith)

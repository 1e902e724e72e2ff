-- ===== src/Tests/Delivery.antt =====
-- Delivery, with Gotify and the file system answering as the tests say.
use gotify_vps_agent.Prelude.{◌≡◌, refl, Bool, true, List, map, Option, some, arith, leb, length}
use gotify_vps_agent.Prelude.Text.{Text, bytes}
use gotify_vps_agent.Queue.{Queue}
use gotify_vps_agent.Notify.{Message, build, escape_markdown, sort_events}
use gotify_vps_agent.Delivery.{Action, delivered, deliver_queued}
use gotify_vps_agent.Delivery.Conservation.{Conserves, kept, deliver_queued-Conserves}
use gotify_vps_agent.Delivery.Order.{Finishes, deliver_queued-Finishes, deliver_queued-delivered}
use gotify_vps_agent.Tests.Fixtures.{clock_text, two_events, waiting}

abbrev always : List Action → Message → Bool
always actions m = true

abbrev written : List Action → Queue → Bool
written actions q = true

-- Gotify stops answering after the first action.
abbrev once : List Action → Message → Bool
once actions m = leb (length actions) 0

-- An encoder that writes a byte for each event.
abbrev as_bytes : Queue → Option Text
as_bytes q = some (map (λ e. b'e') q.events)

deliver_queued-Conserves_example :
    Conserves as_bytes
      (kept as_bytes waiting)
      two_events
      (deliver_queued clock_text once written (bytes "vps") 9 waiting)
deliver_queued-Conserves_example =
    deliver_queued-Conserves as_bytes clock_text once written (bytes "vps") 9 waiting

deliver_queued-Finishes_example :
    Finishes (deliver_queued clock_text once written (bytes "vps") 9 waiting)
deliver_queued-Finishes_example =
    deliver_queued-Finishes clock_text once written (bytes "vps") 9 waiting

deliver_queued-delivered_example :
    (deliver_queued clock_text always written (bytes "vps") 9 waiting).result ≡ delivered
unfolding build escape_markdown sort_events
deliver_queued-delivered_example =
    deliver_queued-delivered clock_text always written (bytes "vps") 9 (λ a m. refl) (λ a q. refl)
      waiting (omega arith)

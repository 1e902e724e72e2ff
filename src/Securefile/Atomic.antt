-- ===== src/Securefile/Atomic.antt =====
-- A file is replaced whole or not at all.
use gotify_vps_agent.Prelude.{◌≡◌, true, none, some, arith}
use gotify_vps_agent.Prelude.Text.{Text}
use gotify_vps_agent.Securefile.{Disk, Calls, WriteError, write}

-- A disk without a temporary file: if `Write` gives no error, the file has the new content and no
-- temporary file is left; if it gives one, whichever call failed, the file is as it was, and a
-- temporary file is left only if it could not be removed.
pub write-IsAtomic :
    (calls : Calls) (content : Text) (disk : Disk)
    → disk.temporary ≡ none
    → let (after, error) = write calls content disk in
      (error ≡ none → (after.target ≡ some content) × (after.temporary ≡ none))
      × ((e : WriteError)
          → error ≡ some e
          → (after.target ≡ disk.target) × (calls.removed ≡ true → after.temporary ≡ none))
unfolding write
write-IsAtomic calls content disk h = (
  λ k. (ground (arith, h, k), ground (arith, h, k)),
  λ e k. (ground (arith, h, k), λ r. ground (arith, h, k, r)),
)

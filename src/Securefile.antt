-- ===== src/Securefile.antt =====
-- internal/securefile: a file is written beside its place and then takes it. The disk is the file in
-- its place and the temporary one; what each system call answers is a record.
pub mod Atomic
use gotify_vps_agent.Prelude.{
  Bool, true, false, not, List, [], ◌∷◌, Option, none, some, if◌then◌else◌,
}
use gotify_vps_agent.Prelude.Text.{Text}

pub record Disk : Type 0 where
  pub target : Option Text
  pub temporary : Option Text

-- Whether each call succeeds. A write that fails leaves some bytes, `partial`, in the temporary file.
pub record Calls : Type 0 where
  pub directory_made : Bool
  pub temporary_made : Bool
  pub mode_changed : Bool
  pub written : Bool
  pub partial : Text
  pub synced : Bool
  pub closed : Bool
  pub renamed : Bool
  pub removed : Bool

pub data WriteError : Type 0 where
  no_directory no_temporary no_mode no_write no_sync no_close no_rename : WriteError

-- `os.Remove(tmp)`, whose error is dropped.
abbrev cleanup : Calls → Disk → Disk
cleanup calls disk = if calls.removed then record disk { temporary = none } else disk

-- `Write`: the disk after it, and the error. The directory is synced at the end, whatever happens.
unfoldable pub write : Calls → Text → Disk → Disk × Option WriteError
write calls content disk =
    let made = record disk { temporary = some [] } in
    let half = record disk { temporary = some calls.partial } in
    let full = record disk { temporary = some content } in
    if not calls.directory_made
    then (disk, some no_directory)
    else if not calls.temporary_made
    then (disk, some no_temporary)
    else if not calls.mode_changed
    then (cleanup calls made, some no_mode)
    else if not calls.written
    then (cleanup calls half, some no_write)
    else if not calls.synced
    then (cleanup calls full, some no_sync)
    else if not calls.closed
    then (cleanup calls full, some no_close)
    else if not calls.renamed
    then (cleanup calls full, some no_rename)
    else (record { target = some content; temporary = none }, none)

-- ===== src/Platform.antt =====
-- internal/platform: the test for Debian 13.
use gotify_vps_agent.Prelude.{
  Bool, false, ◌&&◌, ◌||◌, List, [], ◌∷◌, Option, none, some, if◌then◌else◌,
}
use gotify_vps_agent.Prelude.Text.{Text, bytes, text_eq, is_empty}
use gotify_vps_agent.Prelude.Dict.{Dict, lookup, insert}
use gotify_vps_agent.Strings.{trim_space}
use gotify_vps_agent.Strings.Search.{has_prefix, cut, trim_byte}
use gotify_vps_agent.Strings.Lines.{scan, max_line}
use gotify_vps_agent.Systemd.{or_empty}

pub data ReleaseResult : Type 0 where
  release : Dict Text → ReleaseResult
  release_error : ReleaseResult

-- The body of the loop over the lines.
unfoldable pub release_line : Text → Dict Text → Dict Text
release_line scanned values =
    let line = trim_space scanned in
    if is_empty line || has_prefix line (bytes "#") then values else elim (cut b'=' line) [
      | none ↦ values
      | some (key, value) ↦ insert key (trim_byte b'"' (trim_space value)) values
    ]

unfoldable pub release_lines : List Text → Dict Text → Dict Text
release_lines [] values = values
release_lines (line ∷ rest) values = release_lines rest (release_line line values)

-- `ReadOSRelease` of the contents of the file, if it could be opened and read.
unfoldable pub read_os_release : Option Text → ReleaseResult
read_os_release none = release_error
read_os_release (some text) =
    let (lines, too_long) = scan max_line text in
    if too_long then release_error else release (release_lines lines [])

-- `RequireDebian13` gives no error.
unfoldable pub require_debian13 : ReleaseResult → Bool
require_debian13 release_error = false
require_debian13 (release values) =
    text_eq (or_empty (lookup (bytes "ID") values)) (bytes "debian")
    && text_eq (or_empty (lookup (bytes "VERSION_ID") values)) (bytes "13")

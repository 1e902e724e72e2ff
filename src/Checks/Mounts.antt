-- ===== src/Checks/Mounts.antt =====
-- internal/checks: the mount table of the host, and the usage of its filesystems.
use gotify_vps_agent.Prelude.{
  ℕ, zero, suc, ◌+◌, ◌-◌, ◌%◌, Bool, true, not, ◌&&◌, ◌||◌, List, [], ◌∷◌, ◌++◌, Option, none, some,
  any, ltb, leb, ◌==◌, if◌then◌else◌, length,
}
use gotify_vps_agent.Prelude.Text.{Text, bytes, text_eq, text_lt}
use gotify_vps_agent.Strings.Search.{has_prefix, split, fields, replace, among}
use gotify_vps_agent.Strings.Lines.{scan}
use gotify_vps_agent.Checks.{Mount, FilesystemUsage}
use gotify_vps_agent.Checks.Host.{Host, Floats, FsStat, stat_failed, counts}

-- `unescapeMount`
unfoldable pub unescape_mount : Text → Text
unescape_mount value =
    replace
      ((bytes "\\040", 32 ∷ [])
        ∷ (bytes "\\011", 9 ∷ [])
        ∷ (bytes "\\012", 10 ∷ [])
        ∷ (bytes "\\134", b'\\' ∷ [])
        ∷ [])
      value

abbrev ignored_types : List Text
ignored_types =
    bytes "proc"
    ∷ bytes "sysfs"
    ∷ bytes "devtmpfs"
    ∷ bytes "devpts"
    ∷ bytes "tmpfs"
    ∷ bytes "cgroup"
    ∷ bytes "cgroup2"
    ∷ bytes "pstore"
    ∷ bytes "securityfs"
    ∷ bytes "debugfs"
    ∷ bytes "tracefs"
    ∷ bytes "configfs"
    ∷ bytes "fusectl"
    ∷ bytes "mqueue"
    ∷ bytes "hugetlbfs"
    ∷ bytes "autofs"
    ∷ bytes "rpc_pipefs"
    ∷ bytes "efivarfs"
    ∷ bytes "binfmt_misc"
    ∷ bytes "squashfs"
    ∷ bytes "iso9660"
    ∷ bytes "nfs"
    ∷ bytes "nfs4"
    ∷ bytes "cifs"
    ∷ bytes "smb3"
    ∷ bytes "9p"
    ∷ bytes "ceph"
    ∷ bytes "glusterfs"
    ∷ bytes "fuse.sshfs"
    ∷ []

unfoldable pub is_ignored_type : Text → Bool
is_ignored_type kind = among kind ignored_types

abbrev ignored_prefixes : List Text
ignored_prefixes =
    bytes "/proc"
    ∷ bytes "/sys"
    ∷ bytes "/dev"
    ∷ bytes "/run"
    ∷ bytes "/var/lib/docker/overlay2"
    ∷ bytes "/var/lib/containers/storage/overlay"
    ∷ bytes "/var/lib/kubelet/pods"
    ∷ []

-- `ignoredMountPath`
unfoldable pub ignored_mount_path : Text → Text → Bool
ignored_mount_path path kind =
    if has_prefix kind (bytes "fuse.")
    then true
    else if any (λ p. text_eq path p || has_prefix path (p ++ b'/' ∷ [])) ignored_prefixes
    then true
    else text_eq kind (bytes "overlay") && not (text_eq path (bytes "/"))

-- The index of the first field that is "-".
separator_from : ℕ → List Text → Option ℕ
separator_from i [] = none
separator_from i (field ∷ rest) =
    let later = separator_from (suc i) rest in if text_eq field (bytes "-") then some i else later

field_at : ℕ → List Text → Text
field_at i [] = []
field_at zero (field ∷ rest) = field
field_at (suc i) (field ∷ rest) = field_at i rest

-- The mount that one line describes, before any is left out.
unfoldable pub parse_mount : Text → Option Mount
unfolding separator_from field_at
parse_mount line =
    let parts = fields line in
    elim (separator_from 0 parts) [
      | none ↦ none
      | some separator ↦
          if ltb separator 6 || leb (length parts) (separator + 2)
          then none
          else some (record {
            path = unescape_mount (field_at 4 parts);
            kind = field_at (separator + 1) parts;
            source = unescape_mount (field_at (separator + 2) parts);
            read_only = any (text_eq (bytes "ro")) (split b',' (field_at 5 parts));
          })
    ]

-- The body of the loop: the mounts so far, whose paths are `seen`.
unfoldable pub add_mount : List Mount → Option Mount → List Mount
add_mount mounts none = mounts
add_mount mounts (some m) =
    if is_ignored_type m.kind
      || ignored_mount_path m.path m.kind
      || any (λ other. text_eq other.path m.path) mounts
    then mounts
    else mounts ++ m ∷ []

unfoldable pub add_mounts : List Mount → List Text → List Mount
add_mounts mounts [] = mounts
add_mounts mounts (line ∷ rest) = add_mounts (add_mount mounts (parse_mount line)) rest

-- `parseMountInfo`: the mounts, and whether a line was too long.
unfoldable pub parse_mount_info : Text → List Mount × Bool
parse_mount_info table =
    let (lines, too_long) = scan 1048575 table in (add_mounts [] lines, too_long)

-- `a - b` on `uint64`.
abbrev minus64 : ℕ → ℕ → ℕ
minus64 a b = (a + 18446744073709551616 - b) % 18446744073709551616

module _ {F : Type 0} (float : Floats F) (host : Host) where
  -- `float64(a) / float64(b) * 100`
  unfoldable pub percent_of : ℕ → ℕ → F
  percent_of a b =
      float.multiply (float.divide (float.of_uint a) (float.of_uint b)) (float.of_uint 100)

  unfoldable pub usage_of : Mount → FsStat → List (FilesystemUsage F)
  usage_of item (stat_failed e) =
      record {
        mount = item;
        disk_used = float.of_uint 0;
        inode_used = float.of_uint 0;
        err = some e;
      }
      ∷ []
  usage_of item (counts blocks available files free) =
      if blocks == 0
      then []
      else record {
        mount = item;
        disk_used = percent_of (minus64 blocks available) blocks;
        inode_used = if ltb 0 files then percent_of (minus64 files free) files else float.of_uint 0;
        err = none;
      }
        ∷ []

  -- sort.Slice by path.
  unfoldable pub insert_usage :
      FilesystemUsage F → List (FilesystemUsage F) → List (FilesystemUsage F)
  insert_usage v [] = v ∷ []
  insert_usage v (w ∷ rest) =
      let later = insert_usage v rest in
      if text_lt w.mount.path v.mount.path then w ∷ later else v ∷ w ∷ rest

  unfoldable pub inspect_filesystems : List Mount → List (FilesystemUsage F)
  inspect_filesystems [] = []
  inspect_filesystems (item ∷ rest) =
      let others = inspect_filesystems rest in
      elim (usage_of item (host.statfs (bytes "/proc/1/root" ++ item.path))) [
        | [] ↦ others
        | v ∷ more ↦ insert_usage v others
      ]

-- ===== src/Checks/Memory.antt =====
-- internal/checks: memory, swap and load.
use gotify_vps_agent.Prelude.{
  ℕ, zero, suc, ◌-◌, ◌*◌, ◌%◌, true, false, ◌||◌, List, [], ◌∷◌, ◌++◌, Option, none, some, ltb,
  ◌==◌, if◌then◌else◌,
}
use gotify_vps_agent.Prelude.Int.{pos}
use gotify_vps_agent.Prelude.Text.{Text, bytes, decimal}
use gotify_vps_agent.Prelude.Dict.{Dict, lookup, insert}
use gotify_vps_agent.Strings.Search.{fields}
use gotify_vps_agent.Strings.Lines.{scan, parse_uint, max_line}
use gotify_vps_agent.Model.{Status, status_ok, status_warning, status_critical, status_eq, Result}
use gotify_vps_agent.Config.{Thresholds}
use gotify_vps_agent.Checks.{threshold_high, ok, problem}
use gotify_vps_agent.Checks.Host.{
  Host, Floats, number, not_number, FileText, absent, unreadable, text,
}
use gotify_vps_agent.Checks.Mounts.{percent_of}
use mathlib.Core.List.{reverse}

-- strings.TrimSuffix(s, ":")
trim_colon : List ℕ → Text
trim_colon [] = []
trim_colon (b ∷ back) = if b == b':' then reverse back else reverse (b ∷ back)

mem_line : List Text → Dict ℕ → Dict ℕ
unfolding trim_colon
mem_line (name ∷ amount ∷ rest) values = elim (parse_uint amount) [
  | none ↦ values
  | some n ↦ insert (trim_colon (reverse name)) n values
]
mem_line _ values = values

mem_lines : List Text → Dict ℕ → Dict ℕ
unfolding mem_line
mem_lines [] values = values
mem_lines (line ∷ rest) values = mem_lines rest (mem_line (fields line) values)

-- `readMemInfo`; a file that cannot be opened gives no values.
unfoldable pub read_mem_info : FileText → Dict ℕ
unfolding mem_lines
read_mem_info (text s) = mem_lines (scan max_line s).0 []
read_mem_info absent = []
read_mem_info (unreadable e) = []

abbrev or_nought : Option ℕ → ℕ
or_nought none = 0
or_nought (some n) = n

module _ {F : Type 0} (float : Floats F) (host : Host) (t : Thresholds F) where
  scaled_from : ℕ → F → List Text → Text
  scaled_from zero size units = []
  scaled_from (suc fuel) size [] = []
  scaled_from (suc fuel) size (unit ∷ []) = float.fixed 1 size ++ bytes " " ++ unit
  scaled_from (suc fuel) size (unit ∷ next ∷ rest) =
      elim (float.reaches size (float.of_uint 1024)) [
        | true ↦ scaled_from fuel (float.divide size (float.of_uint 1024)) (next ∷ rest)
        | false ↦ float.fixed 1 size ++ bytes " " ++ unit
      ]

  -- `formatKiB`; the five units are fuel enough.
  unfoldable pub format_kib : ℕ → Text
  unfolding scaled_from
  format_kib value =
      scaled_from 5 (float.of_uint (value * 1024 % 18446744073709551616))
        (bytes "B" ∷ bytes "KiB" ∷ bytes "MiB" ∷ bytes "GiB" ∷ bytes "TiB" ∷ [])

  -- `percent <= limit` is `limit >= percent`.
  unfoldable pub memory_level : F → Status
  memory_level percent =
      if float.reaches t.memory_available_critical percent
      then status_critical
      else if float.reaches t.memory_available_warning percent
      then status_warning
      else status_ok

  unfoldable pub check_memory : Dict ℕ → Result
  check_memory values =
      let id = bytes "memory.available" in
      let title = bytes "Available memory" in
      let total = or_nought (lookup (bytes "MemTotal") values) in
      let unreadable_result =
        problem id title status_warning (bytes "Unable to read /proc/meminfo") false in
      elim (lookup (bytes "MemAvailable") values) [
        | none ↦ unreadable_result
        | some available ↦
            let percent = percent_of float host available total in
            let level = memory_level percent in
            let message =
              float.fixed 1 percent
              ++ bytes "% available ("
              ++ format_kib available
              ++ bytes " of "
              ++ format_kib total
              ++ bytes ")" in
            if total == 0 || ltb total available
            then unreadable_result
            else if status_eq level status_ok
            then ok id title message
            else problem id title level message false
      ]

  unfoldable pub check_swap : Dict ℕ → Result
  check_swap values =
      let id = bytes "memory.swap" in
      let title = bytes "Swap usage" in
      let unreadable_result =
        problem id title status_warning (bytes "Unable to read valid swap data from /proc/meminfo")
          false in
      elim (lookup (bytes "SwapTotal") values) [
        | none ↦ unreadable_result
        | some total ↦ elim (lookup (bytes "SwapFree") values) [
          | none ↦ unreadable_result
          | some free ↦
              let used = total - free in
              let percent = percent_of float host used total in
              let level = threshold_high float.reaches percent t.swap_warning t.swap_critical in
              let message =
                float.fixed 1 percent
                ++ bytes "% used ("
                ++ format_kib used
                ++ bytes " of "
                ++ format_kib total
                ++ bytes ")" in
              if ltb total free
              then unreadable_result
              else if total == 0
              then ok id title (bytes "Swap is not configured")
              else if status_eq level status_ok
              then ok id title message
              else problem id title level message false
        ]
      ]

  -- What `checkLoad` concludes from the fields of /proc/loadavg.
  unfoldable pub judge_load : List Text → Result
  judge_load (one ∷ five ∷ fifteen ∷ rest) =
      let id = bytes "cpu.load" in
      let title = bytes "CPU load" in
      elim (float.parse one) [
        | not_number e ↦ problem id title status_warning e false
        | number load ↦
            let per_cpu = float.divide load (float.of_uint host.cpus) in
            let level =
              threshold_high float.reaches per_cpu t.load_warning_per_cpu t.load_critical_per_cpu in
            let message =
              bytes "1-minute load "
              ++ float.fixed 2 load
              ++ bytes " across "
              ++ decimal (pos host.cpus)
              ++ bytes " CPUs ("
              ++ float.fixed 2 per_cpu
              ++ bytes " per CPU)" in
            if status_eq level status_ok
            then ok id title message
            else problem id title level message false
      ]
  judge_load _ =
      problem (bytes "cpu.load") (bytes "CPU load") status_warning (bytes "Invalid /proc/loadavg")
        false

  unfoldable pub load_of : FileText → Result
  load_of absent =
      problem (bytes "cpu.load") (bytes "CPU load") status_warning
        (bytes "open /proc/loadavg: no such file or directory") false
  load_of (unreadable e) = problem (bytes "cpu.load") (bytes "CPU load") status_warning e false
  load_of (text s) = judge_load (fields s)

  unfoldable pub check_load : Result
  check_load = load_of (host.read (bytes "/proc/loadavg"))

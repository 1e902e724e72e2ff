-- ===== src/Services.antt =====
-- internal/services: the profiles of services, and how installed ones are found. What the machine
-- answers is a record.
use gotify_vps_agent.Prelude.{
  Bool, false, not, ◌&&◌, List, [], ◌∷◌, ◌++◌, map, Option, none, some, if◌then◌else◌, keep,
}
use mathlib.Core.List.{reverse}
use gotify_vps_agent.Prelude.Int.{pos, eqb_ℤ}
use gotify_vps_agent.Prelude.Text.{Text, bytes, text_eq, text_lt, is_empty}
use gotify_vps_agent.Strings.{trim_space}
use gotify_vps_agent.Strings.Search.{split, among}
use gotify_vps_agent.Runner.{Answer, answered, not_run}

pub record Profile : Type 0 where
  pub id : Text
  pub name : Text
  pub candidates : List Text
  pub unit_glob : Text
  pub packages : List Text
  pub binary_paths : List Text
  pub binary_globs : List Text

pub record Detection : Type 0 where
  pub profile : Profile
  pub unit : Text
  pub active : Bool
  pub enabled : Bool
  pub evidence : List Text

-- A profile whose units have fixed names.
abbrev fixed : Text → Text → List Text → List Text → List Text → Profile
fixed id name candidates packages paths = record {
  id = id;
  name = name;
  candidates = candidates;
  unit_glob = [];
  packages = packages;
  binary_paths = paths;
  binary_globs = [];
}

abbrev one : Text → List Text
one s = s ∷ []

unfoldable pub profiles : List Profile
profiles =
    fixed (bytes "ssh") (bytes "SSH") (one (bytes "ssh.service")) (one (bytes "openssh-server"))
      (one (bytes "/usr/sbin/sshd"))
    ∷ fixed (bytes "nginx") (bytes "Nginx") (one (bytes "nginx.service")) (one (bytes "nginx"))
        (one (bytes "/usr/sbin/nginx"))
    ∷ record {
      id = bytes "php-fpm";
      name = bytes "PHP-FPM";
      candidates = [];
      unit_glob = bytes "php*-fpm.service";
      packages = [];
      binary_paths = [];
      binary_globs = one (bytes "/usr/sbin/php-fpm*");
    }
    ∷ fixed (bytes "mariadb") (bytes "MariaDB/MySQL")
        (bytes "mariadb.service" ∷ bytes "mysql.service" ∷ [])
        (bytes "mariadb-server" ∷ bytes "mysql-server" ∷ [])
        (bytes "/usr/sbin/mariadbd" ∷ bytes "/usr/sbin/mysqld" ∷ [])
    ∷ fixed (bytes "postgresql") (bytes "PostgreSQL") (one (bytes "postgresql.service"))
        (one (bytes "postgresql")) (one (bytes "/usr/bin/pg_lsclusters"))
    ∷ fixed (bytes "tor") (bytes "Tor") (bytes "tor@default.service" ∷ bytes "tor.service" ∷ [])
        (one (bytes "tor")) (one (bytes "/usr/bin/tor"))
    ∷ []

pub record Probe : Type 0 where
  -- runner.Run of a path and its arguments
  pub run : Text → List Text → Answer
  -- filepath.Glob
  pub glob : Text → List Text
  -- `regularExecutable`: os.Stat gives a regular file with an executable bit
  pub executable : Text → Bool

abbrev output_is : Text → Answer → Bool
output_is expected (not_run e) = false
output_is expected (answered r) =
    eqb_ℤ r.exit_code (pos 0) && text_eq (trim_space r.output) expected

-- sort.Strings
unfoldable pub insert_text : Text → List Text → List Text
insert_text s [] = s ∷ []
insert_text s (t ∷ rest) =
    let later = insert_text s rest in if text_lt t s then t ∷ later else s ∷ t ∷ rest

unfoldable pub sort_texts : List Text → List Text
sort_texts [] = []
sort_texts (s ∷ rest) = insert_text s (sort_texts rest)

-- filepath.Base of a path that does not end in a slash.
base_name : Text → Text
base_name path = last (split b'/' path)
  where
    last : List Text → Text
    last [] = []
    last (s ∷ []) = s
    last (s ∷ t ∷ rest) = last (t ∷ rest)

module _ (probe : Probe) where
  unfoldable pub unit_exists : Text → Bool
  unit_exists unit = output_is (bytes "loaded") (
      probe.run (bytes "/usr/bin/systemctl")
        (bytes "show" ∷ unit ∷ bytes "--property=LoadState" ∷ bytes "--value" ∷ []))

  unfoldable pub unit_state : Text → Text → Text
  unit_state command unit = elim (probe.run (bytes "/usr/bin/systemctl") (command ∷ unit ∷ [])) [
    | not_run e ↦ bytes "unknown"
    | answered r ↦
        let value = trim_space r.output in if is_empty value then bytes "unknown" else value
  ]

  -- `packageInstalled`, with `installedStatus`.
  unfoldable pub package_installed : Text → Bool
  package_installed name = output_is (bytes "ii") (
      probe.run (bytes "/usr/bin/dpkg-query")
        (bytes "-W" ∷ bytes "-f=${db:Status-Abbrev}" ∷ name ∷ []))

  -- The loops of `detectGlob` over the matches: the units that exist, each once.
  unfoldable pub existing_units : List Text → List Text → List Text
  existing_units units [] = units
  existing_units units (unit ∷ rest) =
      existing_units
        (if not (among unit units) && unit_exists unit then units ++ unit ∷ [] else units) rest

  -- The first active unit of a list, or else its first.
  unfoldable pub choose_unit : List Text → Text → Text
  choose_unit [] otherwise = otherwise
  choose_unit (unit ∷ rest) otherwise =
      let later = choose_unit rest otherwise in
      if text_eq (unit_state (bytes "is-active") unit) (bytes "active") then unit else later

  abbrev first_or_empty : List Text → Text
  first_or_empty [] = []
  first_or_empty (s ∷ rest) = s

  -- `detectGlob`: the units are tried from the last name to the first.
  unfoldable pub detect_glob : Text → Text
  unfolding base_name
  detect_glob pattern =
      let matches =
        probe.glob (bytes "/usr/lib/systemd/system/" ++ pattern)
        ++ (probe.glob (bytes "/lib/systemd/system/" ++ pattern)
            ++ probe.glob (bytes "/etc/systemd/system/" ++ pattern)) in
      let units = reverse (sort_texts (existing_units [] (map base_name matches))) in
      choose_unit units (first_or_empty units)

  unfoldable pub first_unit : List Text → Text
  first_unit [] = []
  first_unit (candidate ∷ rest) =
      let later = first_unit rest in if unit_exists candidate then candidate else later

  -- The unit of a profile, or an empty text.
  unfoldable pub unit_of : Profile → Text
  unit_of p =
      let unit = first_unit p.candidates in
      if is_empty unit && not (is_empty p.unit_glob) then detect_glob p.unit_glob else unit

  -- The first executable of a sorted list.
  unfoldable pub first_executable : List Text → List Text
  first_executable [] = []
  first_executable (path ∷ rest) =
      let later = first_executable rest in
      if probe.executable path then (bytes "binary:" ++ path) ∷ [] else later

  unfoldable pub glob_evidence : List Text → List Text
  glob_evidence [] = []
  glob_evidence (pattern ∷ rest) =
      first_executable (sort_texts (probe.glob pattern)) ++ glob_evidence rest

  unfoldable pub evidence_of : Profile → Text → List Text
  evidence_of p unit =
      (bytes "systemd:" ++ unit)
      ∷ (map (λ name. bytes "package:" ++ name) (keep package_installed p.packages)
          ++ (map (λ path. bytes "binary:" ++ path) (keep probe.executable p.binary_paths)
              ++ glob_evidence p.binary_globs))

  unfoldable pub detect_from : List Profile → List Detection
  detect_from [] = []
  detect_from (p ∷ rest) =
      let unit = unit_of p in
      let others = detect_from rest in
      if is_empty unit
      then others
      else record {
        profile = p;
        unit = unit;
        active = text_eq (unit_state (bytes "is-active") unit) (bytes "active");
        enabled = text_eq (unit_state (bytes "is-enabled") unit) (bytes "enabled");
        evidence = evidence_of p unit;
      }
        ∷ others

  -- `Detect`
  unfoldable pub detect : List Detection
  detect = detect_from profiles

-- `ProfileByID`
unfoldable pub profile_by_id : Text → List Profile → Option Profile
profile_by_id id [] = none
profile_by_id id (p ∷ rest) =
    let later = profile_by_id id rest in if text_eq p.id id then some p else later

unfoldable pub find_detection : Text → List Detection → Option Detection
find_detection id [] = none
find_detection id (d ∷ rest) =
    let later = find_detection id rest in if text_eq d.profile.id id then some d else later

pub data DetectError : Type 0 where
  unsupported_profile not_detected : DetectError

pub data Detected : Type 0 where
  detected : Detection → Detected
  undetected : DetectError → Detected

-- `DetectByID`
unfoldable pub detect_by_id : Probe → Text → Detected
detect_by_id probe id = elim (profile_by_id id profiles) [
  | none ↦ undetected unsupported_profile
  | some p ↦ elim (find_detection id (detect probe)) [
    | none ↦ undetected not_detected
    | some d ↦ detected d
  ]
]

-- ===== src/Checks/Services.antt =====
-- internal/checks: the configured services.
use gotify_vps_agent.Prelude.{
  true, false, not, List, [], ◌∷◌, ◌++◌, ltb, ◌==◌, if◌then◌else◌, length,
}
use gotify_vps_agent.Prelude.Int.{pos, eqb_ℤ}
use gotify_vps_agent.Prelude.Text.{Text, bytes, text_eq, decimal}
use gotify_vps_agent.Prelude.Dict.{Dict, sort_keys}
use gotify_vps_agent.Strings.Search.{split, fields, join}
use gotify_vps_agent.Strings.Lines.{non_empty_lines}
use gotify_vps_agent.Model.{status_warning, status_critical, Result}
use gotify_vps_agent.Runner.{answered, not_run}
use gotify_vps_agent.Checks.{ok, problem, join_limited}
use gotify_vps_agent.Checks.Host.{Host, systemctl_state}
use gotify_vps_agent.Checks.Programs.{compact_output}

-- `serviceTitle`
unfoldable pub service_title : Text → Text
service_title id =
    if text_eq id (bytes "ssh")
    then bytes "SSH service"
    else if text_eq id (bytes "nginx")
    then bytes "Nginx service"
    else if text_eq id (bytes "php-fpm")
    then bytes "PHP-FPM service"
    else if text_eq id (bytes "mariadb")
    then bytes "MariaDB/MySQL service"
    else if text_eq id (bytes "postgresql")
    then bytes "PostgreSQL service"
    else if text_eq id (bytes "tor")
    then bytes "Tor service"
    else id ++ bytes " service"

first_of : List Text → Text
first_of [] = []
first_of (s ∷ rest) = s

-- What a line of pg_lsclusters says of a cluster that is not online.
unfoldable pub offline_cluster : Text → List Text → List Text
unfolding first_of
offline_cluster line (version ∷ cluster ∷ port ∷ state ∷ rest) =
    if text_eq (first_of (split b',' state)) (bytes "online")
    then []
    else join (bytes " ") (version ∷ cluster ∷ port ∷ state ∷ []) ∷ []
offline_cluster line _ = line ∷ []

unfoldable pub offline_clusters : List Text → List Text
offline_clusters [] = []
offline_clusters (line ∷ rest) = offline_cluster line (fields line) ++ offline_clusters rest

postgresql_id : Text
postgresql_id = bytes "service.postgresql"

postgresql_title : Text
postgresql_title = bytes "PostgreSQL service"

-- `postgreSQLStatus`
unfoldable pub postgresql_status : Text → Result
unfolding postgresql_id postgresql_title
postgresql_status output =
    let lines = non_empty_lines output in
    let offline = offline_clusters lines in
    if length lines == 0
    then problem postgresql_id postgresql_title status_warning
        (bytes "No PostgreSQL clusters were found") false
    else if ltb 0 (length offline)
    then problem postgresql_id postgresql_title status_critical
        (bytes "Offline clusters: " ++ join_limited offline 4) true
    else ok postgresql_id postgresql_title
        (decimal (pos (length lines)) ++ bytes " PostgreSQL cluster(s) online")

module _ (host : Host) where
  -- The result of a service that systemd knows.
  unfoldable pub unit_result : Text → Text → Text → Result
  unit_result id title unit =
      let active = systemctl_state host (bytes "is-active") unit in
      if text_eq active (bytes "active")
      then ok id title (unit ++ bytes " is active")
      else problem id title status_critical (unit ++ bytes " is " ++ active) true

  unfoldable pub check_postgresql : Text → Result
  unfolding postgresql_id postgresql_title
  check_postgresql unit =
      if not (host.exists (bytes "/usr/bin/pg_lsclusters"))
      then unit_result postgresql_id postgresql_title unit
      else elim (host.run (bytes "/usr/bin/pg_lsclusters") (bytes "--no-header" ∷ [])) [
        | not_run e ↦ problem postgresql_id postgresql_title status_warning e false
        | answered r ↦
            if not (eqb_ℤ r.exit_code (pos 0))
            then problem postgresql_id postgresql_title status_warning (compact_output r.output)
                false
            else if r.truncated
            then problem postgresql_id postgresql_title status_warning
                (bytes "Cluster status output exceeded the safe collection limit") false
            else postgresql_status r.output
      ]

  unfoldable pub check_service : Text → Text → Result
  check_service id unit =
      if text_eq id (bytes "postgresql")
      then check_postgresql unit
      else unit_result (bytes "service." ++ id) (service_title id) unit

  unfoldable pub check_sorted : Dict Text → List Result
  check_sorted [] = []
  check_sorted ((id, unit) ∷ rest) = check_service id unit ∷ check_sorted rest

-- `checkServices`
unfoldable pub check_services : Host → Dict Text → List Result
check_services host configured = check_sorted host (sort_keys configured)

-- ===== src/Tests/Checks.antt =====
-- Runs of the checks on small inputs.
use gotify_vps_agent.Prelude.{ℕ, ◌≡◌, Bool, false, [], ◌∷◌, none, ltb, leb}
use gotify_vps_agent.Prelude.Int.{pos}
use gotify_vps_agent.Runner.{Answer, answered}
use gotify_vps_agent.Prelude.Text.{Text, bytes}
use gotify_vps_agent.Model.{status_critical, status_eq}
use gotify_vps_agent.Checks.{rank, FilesystemUsage, check_usage}
use gotify_vps_agent.Checks.Levels.{check_usage-rank}
use gotify_vps_agent.Checks.Journal.{
  IsCollected, collect_journal_page, collect_journal_page-IsCollected,
}

-- Pages of more than 300 lines are cut off.
abbrev small_pages : ℕ → Answer
small_pages n = answered (record { output = []; exit_code = pos 0; truncated = ltb 300 n })

collect_journal_page-IsCollected_example :
    IsCollected small_pages 2000 (collect_journal_page small_pages)
collect_journal_page-IsCollected_example = collect_journal_page-IsCollected small_pages

abbrev usage_of : Text → ℕ → FilesystemUsage ℕ
usage_of path n = record {
  mount = record { path = path; kind = bytes "ext4"; source = bytes "sda"; read_only = false };
  disk_used = n;
  inode_used = 0;
  err = none;
}

abbrev reaches : ℕ → ℕ → Bool
reaches value limit = leb limit value

abbrev percent : ℕ → Text
percent n = []

abbrev used : FilesystemUsage ℕ → ℕ
used v = v.disk_used

check_usage-rank_example :
    (rank
        (check_usage reaches ltb percent used 85 95
          (bytes "id")
          (bytes "title")
          (usage_of (bytes "/") 90 ∷ usage_of (bytes "/home") 96 ∷ [])).status
      ≡ 2)
    × ((check_usage reaches ltb percent used 85 95
          (bytes "id")
          (bytes "title")
          (usage_of (bytes "/") 90 ∷ usage_of (bytes "/home") 96 ∷ [])).immediate
        ≡ status_eq
            (check_usage reaches ltb percent used 85 95
              (bytes "id")
              (bytes "title")
              (usage_of (bytes "/") 90 ∷ usage_of (bytes "/home") 96 ∷ [])).status
            status_critical)
check_usage-rank_example =
    check_usage-rank reaches ltb percent used 85 95 (bytes "id") (bytes "title")
      (usage_of (bytes "/") 90) (usage_of (bytes "/home") 96 ∷ [])

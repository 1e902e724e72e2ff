-- ===== src/Checks/Levels.antt =====
-- The status of a disk or inode check is the highest that any filesystem gives.
use gotify_vps_agent.Prelude.{
  ℕ, ◌≡◌, Bool, inl, inr, List, [], ◌∷◌, none, some, arith, if◌then◌else◌, max, Option-cases,
}
use gotify_vps_agent.Prelude.Text.{Text}
use gotify_vps_agent.Model.{Status, status_ok, status_warning, status_critical, status_eq}
use gotify_vps_agent.Checks.{
  rank, higher, threshold_high, ok, problem, FilesystemUsage, Usage, usage_step, usage_from,
  check_usage,
}

pub rank-higher : (s t : Status) → rank (higher s t) ≡ max (rank s) (rank t)
unfolding higher
rank-higher s t = ground arith

-- The rank that one filesystem gives: 1 if it could not be inspected, 2 if its usage reaches the
-- critical threshold, 1 if it reaches the warning threshold, or 0.
abbrev pub grade :
    {F : Type 0} → (F → F → Bool) → (FilesystemUsage F → F) → F → F → FilesystemUsage F → ℕ
grade reaches used warning critical value = elim value.err [
  | some e ↦ 1
  | none ↦
      if reaches (used value) critical then 2 else if reaches (used value) warning then 1 else 0
]

abbrev pub highest_grade :
    {F : Type 0} → (F → F → Bool) → (FilesystemUsage F → F) → F → F → List (FilesystemUsage F) → ℕ
highest_grade reaches used warning critical [] = 0
highest_grade reaches used warning critical (value ∷ rest) =
    max (grade reaches used warning critical value)
      (highest_grade reaches used warning critical rest)

rank-usage_step :
    {F : Type 0} (reaches less : F → F → Bool) (percent : F → Text) (used : FilesystemUsage F → F)
    (warning critical : F) (value : FilesystemUsage F) (u : Usage reaches less percent)
    → rank (usage_step reaches less percent used warning critical value u).level
      ≡ max (rank u.level) (grade reaches used warning critical value)
unfolding usage_step threshold_high
rank-usage_step reaches less percent used warning critical value u = elim (Option-cases value.err) [
  | inl e ↦
      ground (arith, e, rank-higher u.level (threshold_high reaches (used value) warning critical))
  | inr (x, e) ↦ ground (arith, e, rank-higher u.level status_warning)
]

rank-usage_from :
    {F : Type 0} (reaches less : F → F → Bool) (percent : F → Text) (used : FilesystemUsage F → F)
    (warning critical : F) (values : List (FilesystemUsage F)) (u : Usage reaches less percent)
    → rank (usage_from reaches less percent used warning critical values u).level
      ≡ max (rank u.level) (highest_grade reaches used warning critical values)
unfolding usage_from
rank-usage_from reaches less percent used warning critical [] u = omega arith
rank-usage_from reaches less percent used warning critical (value ∷ rest) u = omega (
  arith,
  rank-usage_step reaches less percent used warning critical value u,
  rank-usage_from reaches less percent used warning critical rest
      (usage_step reaches less percent used warning critical value u),
)

-- The status that a disk or inode check reports on a list of filesystems that is not empty is the
-- highest of what they give one by one: a filesystem that cannot be inspected counts as a warning, one
-- whose usage reaches a threshold as that threshold. The result is immediate only if it is critical.
pub check_usage-rank :
    {F : Type 0} (reaches less : F → F → Bool) (percent : F → Text) (used : FilesystemUsage F → F)
    (warning critical : F) (id title : Text) (first : FilesystemUsage F)
    (rest : List (FilesystemUsage F))
    → let result = check_usage reaches less percent used warning critical id title (first ∷ rest) in
      (rank result.status ≡ highest_grade reaches used warning critical (first ∷ rest))
      × (result.immediate ≡ status_eq result.status status_critical)
unfolding check_usage ok problem
check_usage-rank reaches less percent used warning critical id title first rest =
    let start : Usage reaches less percent = record {
      level = status_ok;
      issues = [];
      worst = first;
    } in
    let all = rank-usage_from reaches less percent used warning critical (first ∷ rest) start in
    ground (arith, all)

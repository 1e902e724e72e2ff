-- ===== src/State/Files.antt =====
-- The state file: what `Load` accepts.
use gotify_vps_agent.Prelude.{
  ◌≤◌, ◌≡◌, refl, ap, true, false, not, ◌||◌, [], ◌∷◌, arith, ltb, length, suc, All,
}
use gotify_vps_agent.Prelude.Int.{pos, ltb_ℤ, eqb_ℤ}
use gotify_vps_agent.Prelude.Text.{Text, is_empty}
use gotify_vps_agent.Prelude.Dict.{Dict}
use gotify_vps_agent.Textsafe.Safety.{sanitize_bounds}
use gotify_vps_agent.Clock.{is_zero}
use gotify_vps_agent.Model.{status_ok, status_eq}
use gotify_vps_agent.File.{
  ReadOutcome, missing, unopened, unread, contents, Decoded, done, read_limited, decoded, Ensures,
  Ensures-done, Ensures->>=, Ensures-refuse, Ensures-true, invalid_check_id, invalid_status,
  invalid_counters, unsupported_version, too_many_checks,
}
use gotify_vps_agent.State.{
  CheckState, State, new, max_state_bytes, valid_status, clean_check, accept_check, load_checks,
  load_value, load,
}

-- An entry as `Load` returns it.
abbrev pub IsSound : CheckState → Type 0
IsSound c =
    (valid_status c.current ≡ true)
    × (valid_status c.last_observed ≡ true)
    × (ltb_ℤ c.consecutive_failures (pos 0) ≡ false)
    × (ltb_ℤ c.consecutive_successes (pos 0) ≡ false)
    × (length c.title ≤ 256)
    × (length c.message ≤ 4096)
    × ((is_zero c.last_notification_at || status_eq c.current status_ok || c.notified) ≡ true)

abbrev pub IsEntry : Text × CheckState → Type 0
IsEntry (id, c) = (is_empty id ≡ false) × (length id ≤ 128) × IsSound c

abbrev pub IsLoaded : State → Type 0
IsLoaded s = (eqb_ℤ s.version (pos 1) ≡ true) × (length s.checks ≤ 512) × All IsEntry s.checks

clean_check-notified :
    (c : CheckState)
    → (is_zero (clean_check c).last_notification_at
        || status_eq (clean_check c).current status_ok
        || (clean_check c).notified)
      ≡ true
unfolding clean_check
clean_check-notified c = ground arith

clean_check-IsSound :
    (c : CheckState)
    → valid_status c.current ≡ true
    → valid_status c.last_observed ≡ true
    → ltb_ℤ c.consecutive_failures (pos 0) ≡ false
    → ltb_ℤ c.consecutive_successes (pos 0) ≡ false
    → IsSound (clean_check c)
unfolding clean_check
clean_check-IsSound c a b f g = (
  a,
  b,
  f,
  g,
  (sanitize_bounds c.title (pos 256)).0,
  (sanitize_bounds c.message (pos 4096)).0,
  clean_check-notified c,
)

accept_check-IsEntry :
    (id : Text) (c : CheckState) → Ensures (λ d. IsEntry (id, d)) (accept_check id c)
unfolding accept_check
accept_check-IsEntry id c =
    Ensures-refuse _ (is_empty id || ltb 128 (length id)) invalid_check_id _ λ named.
      Ensures-refuse _ (not (valid_status c.current) || not (valid_status c.last_observed))
        invalid_status _
        λ states.
          Ensures-refuse _
            (ltb_ℤ c.consecutive_failures (pos 0) || ltb_ℤ c.consecutive_successes (pos 0))
            invalid_counters _
            λ counts. (
              ground arith,
              ground arith,
              clean_check-IsSound c (ground arith) (ground arith) (ground arith) (ground arith),
            )

load_checks-IsEntry :
    (m : Dict CheckState) → Ensures (λ n. All IsEntry n × (length n ≡ length m)) (load_checks m)
unfolding load_checks
load_checks-IsEntry [] = (tt, refl)
load_checks-IsEntry ((id, c) ∷ rest) =
    Ensures->>= _ _ (accept_check id c) _ (accept_check-IsEntry id c) λ d s.
      Ensures->>= _ _ (load_checks rest) _ (load_checks-IsEntry rest) λ n t. ((s, t.0), ap suc t.1)

load_value-IsLoaded : (s : State) → Ensures IsLoaded (load_value s)
unfolding load_value
load_value-IsLoaded s = Ensures-refuse _ (not (eqb_ℤ s.version (pos 1))) unsupported_version _ λ v.
    Ensures-refuse _ (ltb 512 (length s.checks)) too_many_checks _ λ m.
      Ensures->>= _ _ (load_checks s.checks) _ (load_checks-IsEntry s.checks)
        λ n t. (ground arith, ground arith, t.0)

new-IsLoaded : IsLoaded new
unfolding new
new-IsLoaded = (refl, omega arith, tt)

-- A state that `Load` returns, from whatever file, has version 1 and at most 512 checks. Each has an
-- id of 1 to 128 bytes, statuses that the program knows, counters that are not negative, and a title
-- and message of at most 256 and 4096 bytes; one that is not healthy and was notified of is marked.
pub state_load-IsLoaded :
    (decode : Text → Decoded State) (file : ReadOutcome) (s : State)
    → load decode file ≡ done s
    → IsLoaded s
state_load-IsLoaded decode file s h = Ensures-done IsLoaded (load decode file) s (every file) h
  where
    every : (f : ReadOutcome) → Ensures IsLoaded (load decode f)
    every missing = unfold load in new-IsLoaded
    every unopened = unfold load in tt
    every unread = unfold load in tt
    every (contents text) =
        unfold load in
        Ensures->>= _ _ (read_limited max_state_bytes text) _
          (Ensures-true (read_limited max_state_bytes text))
          λ bytes u.
            Ensures->>= _ _ (decoded (decode bytes)) _ (Ensures-true (decoded (decode bytes)))
              λ value w. load_value-IsLoaded value

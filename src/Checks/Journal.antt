-- ===== src/Checks/Journal.antt =====
-- internal/checks, the journal: its cursor, and a page of it that fits the limit on output.
use gotify_vps_agent.Prelude.{
  ℕ, zero, suc, ◌≡◌, ◌≤◌, ◌<◌, ◌/◌, ◌*◌, refl, sym, subst, true, false, inl, inr, ◌||◌, Option,
  none, some, arith, any, ltb, leb, ◌==◌, if◌then◌else◌, length, max, Bool-cases, ◌⊎◌,
}
use gotify_vps_agent.Runner.{CommandResult, Answer, answered, not_run}
use gotify_vps_agent.Prelude.Text.{Text, is_empty}

pub data CursorError : Type 0 where
  cursor_too_long cursor_control : CursorError

-- The loop is over the runes of the cursor. A control character is one byte, and no byte of a longer
-- rune is below 0x80, so the bytes are tested.
unfoldable pub validate_journal_cursor : Text → Option CursorError
validate_journal_cursor cursor =
    if is_empty cursor
    then none
    else if ltb 16384 (length cursor)
    then some cursor_too_long
    else if any (λ b. ltb b 0x20 || b == 0x7f) cursor
    then some cursor_control
    else none

-- What `collectJournalPage` returns.
pub data Page : Type 0 where
  page : CommandResult → Page
  page_failed : Text → Page
  entry_too_large out_of_rounds : Page

-- The loop from a limit on; `run` is journalctl with that limit of lines.
unfoldable pub collect_from : (ℕ → Answer) → ℕ → ℕ → Page
collect_from run zero limit = out_of_rounds
collect_from run (suc fuel) limit = elim (run limit) [
  | not_run e ↦ page_failed e
  | answered r ↦ elim r.truncated [
    | false ↦ page r
    | true ↦ elim (leb limit 1) [
      | true ↦ entry_too_large
      | false ↦ collect_from run fuel (max 1 (limit / 2))
    ]
  ]
]

-- From 2000 lines on there are 11 rounds at most.
unfoldable pub collect_journal_page : (ℕ → Answer) → Page
unfolding collect_from
collect_journal_page run = collect_from run 11 2000

-- 2 ^ n
abbrev doubled : ℕ → ℕ
doubled zero = 1
doubled (suc n) = 2 * doubled n

-- What the loop ends with: a whole page for some limit, a failure to run for some limit, or a single
-- entry that is cut off. It does not run out of rounds.
abbrev pub IsCollected : (ℕ → Answer) → ℕ → Page → Type 0
IsCollected run top (page r) =
    (n : ℕ) × (1 ≤ n) × (n ≤ top) × (run n ≡ answered r) × (r.truncated ≡ false)
IsCollected run top (page_failed e) = (n : ℕ) × (1 ≤ n) × (n ≤ top) × (run n ≡ not_run e)
IsCollected run top entry_too_large =
    (r : CommandResult) × (run 1 ≡ answered r) × (r.truncated ≡ true)
IsCollected run top out_of_rounds = ⊥

widen :
    (run : ℕ → Answer) (top limit : ℕ) (p : Page)
    → limit ≤ top
    → IsCollected run limit p
    → IsCollected run top p
widen run top limit (page r) h (n, a, b, c, d) = (n, a, omega arith, c, d)
widen run top limit (page_failed e) h (n, a, b, c) = (n, a, omega arith, c)
widen run top limit entry_too_large h k = k
widen run top limit out_of_rounds h k = k

Answer-cases :
    (a : Answer) → ((e : Text) × (a ≡ not_run e)) ⊎ ((r : CommandResult) × (a ≡ answered r))
Answer-cases (not_run e) = inl (e, refl)
Answer-cases (answered r) = inr (r, refl)

collect_from-IsCollected :
    (run : ℕ → Answer) (fuel limit : ℕ)
    → 1 ≤ limit
    → limit < doubled fuel
    → IsCollected run limit (collect_from run fuel limit)
unfolding collect_from
collect_from-IsCollected run zero limit h k = absurd (omega arith)
collect_from-IsCollected run (suc fuel) limit h k = elim (Answer-cases (run limit)) [
  | inl (e, a) ↦
      let done : collect_from run (suc fuel) limit ≡ page_failed e = rw (collect_from, a) refl in
      subst (IsCollected run limit) (sym done) (limit, h, omega arith, a)
  | inr (r, a) ↦ elim (Bool-cases r.truncated) [
    | inr whole ↦
        let done : collect_from run (suc fuel) limit ≡ page r = simp (collect_from, a, whole) in
        subst (IsCollected run limit) (sym done) (limit, h, omega arith, a, whole)
    | inl cut ↦ elim (Bool-cases (leb limit 1)) [
      | inl one ↦
          let done : collect_from run (suc fuel) limit ≡ entry_too_large =
            simp (collect_from, a, cut, one) in
          let e : limit ≡ 1 = ground arith in
          subst (IsCollected run limit) (sym done) (r, subst (λ n. run n ≡ answered r) e a, cut)
      | inr more ↦
          let lower = max 1 (limit / 2) in
          let done : collect_from run (suc fuel) limit ≡ collect_from run fuel lower =
            simp (collect_from, a, cut, more) in
          subst (IsCollected run limit) (sym done) (
            widen run limit lower (collect_from run fuel lower) (ground arith)
              (collect_from-IsCollected run fuel lower (omega arith) (ground arith)))
    ]
  ]
]

-- Whatever journalctl answers, `collectJournalPage` comes to an end within its rounds: with a page
-- that is not cut off, asked for with a limit from 1 to 2000 lines; with the error of a command that
-- could not be run for such a limit; or with an entry that is cut off even on its own.
pub collect_journal_page-IsCollected :
    (run : ℕ → Answer) → IsCollected run 2000 (collect_journal_page run)
unfolding collect_journal_page
collect_journal_page-IsCollected run =
    collect_from-IsCollected run 11 2000 (omega arith) (omega arith)

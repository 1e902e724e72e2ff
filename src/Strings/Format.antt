-- ===== src/Strings/Format.antt =====
-- The padding of Go's package fmt, which counts runes.
use gotify_vps_agent.Prelude.{ℕ, zero, suc, ◌-◌, [], ◌∷◌, ◌++◌, replicate}
use gotify_vps_agent.Prelude.Text.{Text}
use gotify_vps_agent.Strings.{decode_rune}

-- `skip` bytes of a rune are left.
rune_count_from : ℕ → Text → ℕ
rune_count_from skip [] = 0
rune_count_from (suc skip) (b ∷ s) = rune_count_from skip s
rune_count_from zero (b ∷ s) = suc (rune_count_from ((decode_rune (b ∷ s)).1 - 1) s)

-- utf8.RuneCountInString
unfoldable pub rune_count : Text → ℕ
unfolding rune_count_from
rune_count s = rune_count_from 0 s

-- fmt.Sprintf("%-ws", s)
unfoldable pub pad : ℕ → Text → Text
pad width s = s ++ replicate (width - rune_count s) 32

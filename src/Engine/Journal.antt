-- ===== src/Engine/Journal.antt =====
-- The journal checks `memory.oom` and `kernel.errors`: an occurrence is told once.
use gotify_vps_agent.Prelude.{◌≡◌, refl, ◌∙◌, true, false, List, [], ◌∷◌, arith, All}
use gotify_vps_agent.Prelude.Text.{Text, is_empty, text_eq_iff}
use gotify_vps_agent.Clock.{Time}
use gotify_vps_agent.Model.{Result, fingerprint}
use gotify_vps_agent.Config.{Agent}
use gotify_vps_agent.State.{CheckState}
use gotify_vps_agent.Engine.{journal_check, evaluate_check}
use gotify_vps_agent.Engine.History.{observe}

-- A journal result that reports nothing new.
abbrev pub IsQuiet : Result → Type 0
IsQuiet r = (journal_check r.id ≡ true) × (is_empty r.occurrence ≡ true)

module _ (hex_digest : Text → Text) (agent : Agent) where
  fingerprint-quiet :
      (now : Time) (c : CheckState) (r : Result)
      → IsQuiet r
      → (evaluate_check hex_digest agent now c r).0.fingerprint ≡ c.fingerprint
  unfolding evaluate_check
  fingerprint-quiet now c r q = ground arith

  fingerprint-observe :
      (c : CheckState) (rs : List (Time × Result))
      → All (λ tr. IsQuiet tr.1) rs
      → (observe hex_digest agent c rs).0.fingerprint ≡ c.fingerprint
  unfolding observe
  fingerprint-observe c [] q = refl
  fingerprint-observe c ((now, r) ∷ rs) q =
      fingerprint-observe (evaluate_check hex_digest agent now c r).0 rs q.1
      ∙ fingerprint-quiet now c r q.0

  fingerprint-occurrence :
      (now : Time) (c : CheckState) (r : Result)
      → is_empty r.occurrence ≡ false
      → (evaluate_check hex_digest agent now c r).0.fingerprint ≡ fingerprint hex_digest r
  unfolding evaluate_check
  fingerprint-occurrence now c r o = ground arith

  occurrence_seen :
      (now : Time) (c : CheckState) (r : Result)
      → is_empty r.occurrence ≡ false
      → c.fingerprint ≡ fingerprint hex_digest r
      → (evaluate_check hex_digest agent now c r).1 ≡ []
  unfolding evaluate_check
  occurrence_seen now c r o e = ground (arith, text_eq_iff c.fingerprint (fingerprint hex_digest r))

  -- Once an occurrence has been processed, and after any number of runs in which its journal check
  -- reports nothing new (healthy or not), the same occurrence raises nothing.
  pub occurrence-once :
      (now later : Time) (c : CheckState) (r : Result) (quiet : List (Time × Result))
      → is_empty r.occurrence ≡ false
      → All (λ tr. IsQuiet tr.1) quiet
      → (evaluate_check hex_digest agent later
          (observe hex_digest agent (evaluate_check hex_digest agent now c r).0 quiet).0
          r).1
        ≡ []
  occurrence-once now later c r quiet o q =
      let first = evaluate_check hex_digest agent now c r in
      let last = (observe hex_digest agent first.0 quiet).0 in
      occurrence_seen later last r o
        (fingerprint-observe first.0 quiet q ∙ fingerprint-occurrence now c r o)

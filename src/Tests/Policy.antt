-- ===== src/Tests/Policy.antt =====
-- A run of the severity gate.
use layerscope.Base.{◌≡◌, refl, true, false, [], ◌∷◌, some, all}
use layerscope.Base.Text.{text, same}
use layerscope.Cli.{
  Counts, code, policy, gate_passed, matched, harmless, severity_rank, policy-harmless,
}

abbrev low_only : Counts
low_only = (text "LOW", 3) ∷ (text "HIGH", 0) ∷ []

passes_gate : code (policy (some (text "HIGH")) false (low_only ∷ [])) ≡ 0
unfolding policy code gate_passed matched severity_rank text same
passes_gate = refl

policy-harmless_example :
    all (λ (counts : Counts). all (harmless (severity_rank (text "HIGH"))) counts) (low_only ∷ [])
    ≡ true
policy-harmless_example = policy-harmless (text "HIGH") false (low_only ∷ []) passes_gate

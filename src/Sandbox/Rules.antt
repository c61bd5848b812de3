-- ===== src/Sandbox/Rules.antt =====
-- cognitive_runtime/sandbox/preflight_rules.py: the rules of the preflight check.
--
-- A rule reads the proposal's fields, which its dictionary always holds. The checks do not raise on
-- values of the fields' types.
use Prim.Native.String.{◌++◌ as concat}
use stocky_cognitive_runtime.Prelude.{
  String, Bool, true, false, not, ◌&&◌, Option, none, some, List, [], ◌∷◌, str_eq, if◌then◌else◌,
}
use stocky_cognitive_runtime.Data.Float.{Float, leb_float, ltb_float, zero_float, one, seven_tenths}
use stocky_cognitive_runtime.Data.Contract.{ExecutionProposal}
use stocky_cognitive_runtime.Sandbox.Enforcer.{member, all_capabilities}

pub data RuleSeverity : Type 0 where
  block flag : RuleSeverity

pub record PreflightRule : Type 0 where
  pub name : String
  pub severity : RuleSeverity
  pub evaluate : ExecutionProposal → Option String

-- `None if test else violation`
abbrev pub unless : Bool → String → Option String
unless true violation = none
unless false violation = some violation

abbrev pub text_truthy : String → Bool
text_truthy s = not (str_eq s "")

abbrev pub target_truthy : Option String → Bool
target_truthy none = false
target_truthy (some s) = text_truthy s

-- `0.0 <= x <= 1.0`
abbrev pub in_unit : Float → Bool
in_unit x = leb_float zero_float x && leb_float x one

abbrev pub not_empty : List String → Bool
not_empty [] = false
not_empty (c ∷ cs) = true

unfoldable pub check_known_capabilities : List String → Option String
check_known_capabilities [] = none
check_known_capabilities (cap ∷ caps) =
    let rest = check_known_capabilities caps in
    if not (member cap all_capabilities) then some (concat "unknown_capability: " cap) else rest

unfoldable pub check_high_risk_combination : ExecutionProposal → Option String
check_high_risk_combination p =
    unless
      (not (
        (member "network.http" p.required_capabilities
          && member "filesystem.write" p.required_capabilities)
        && ltb_float seven_tenths p.risk_score))
      "high_risk_network_write_combination"

unfoldable pub check_write_has_target : ExecutionProposal → Option String
check_write_has_target p =
    unless (not (member "filesystem.write" p.required_capabilities && not (target_truthy p.target)))
      "write_without_target"

abbrev rule : String → RuleSeverity → (ExecutionProposal → Option String) → PreflightRule
rule name severity evaluate = record { name = name; severity = severity; evaluate = evaluate }

abbrev pub rules : List PreflightRule
rules =
    rule "proposal_has_action" block (λ p. unless (text_truthy p.action) "missing_action")
    ∷ rule "proposal_has_event_id" block (λ p. unless (text_truthy p.event_id) "missing_event_id")
    ∷ rule "proposal_has_session_id" block
        (λ p. unless (text_truthy p.session_id) "missing_session_id")
    ∷ rule "confidence_in_range" block
        (λ p. unless (in_unit p.confidence) "confidence_out_of_range")
    ∷ rule "risk_score_in_range" block
        (λ p. unless (in_unit p.risk_score) "risk_score_out_of_range")
    ∷ rule "capabilities_not_empty" block
        (λ p. unless (not_empty p.required_capabilities) "no_required_capabilities")
    ∷ rule "capabilities_are_known" block (λ p. check_known_capabilities p.required_capabilities)
    ∷ rule "no_network_write_high_risk" flag check_high_risk_combination
    ∷ rule "target_present_for_write" block check_write_has_target
    ∷ []

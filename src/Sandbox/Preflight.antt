-- ===== src/Sandbox/Preflight.antt =====
-- cognitive_runtime/sandbox/preflight_analyzer.py: the preflight check over the rules.
use Prim.Native.String.{◌++◌ as concat}
use stocky_cognitive_runtime.Prelude.{
  ◌≡◌, ◌↔◌, ◌⊎◌, inl, inr, refl, String, Bool, true, false, Option, none, some, List, [], ◌∷◌, ◌++◌,
  All, arith, Option-cases, Bool-cases,
}
use stocky_cognitive_runtime.Data.Float.{Float}
use stocky_cognitive_runtime.Data.Contract.{ExecutionProposal}
use stocky_cognitive_runtime.Sandbox.Enforcer.{member, all_capabilities}
use stocky_cognitive_runtime.Sandbox.Rules.{
  RuleSeverity, block, flag, PreflightRule, unless, text_truthy, target_truthy, in_unit, not_empty,
  rules, check_known_capabilities, check_write_has_target,
}

pub record PreflightResult : Type 0 where
  pub valid : Bool
  pub reason : String
  pub risk_score : Float
  pub flags : List String
  pub triggered_rules : List String

-- The loop of `analyze`, over the rules that are left.
unfoldable pub analyze_rules :
    List PreflightRule → ExecutionProposal → List String → List String → PreflightResult
analyze_rules [] p flags triggered = record {
  valid = true;
  reason = "preflight_passed";
  risk_score = p.risk_score;
  flags = flags;
  triggered_rules = triggered;
}
analyze_rules (r ∷ rest) p flags triggered = elim (r.evaluate p) [
  | none ↦ analyze_rules rest p flags triggered
  | some violation ↦ elim r.severity [
    | block ↦ record {
      valid = false;
      reason = concat "BLOCKED_BY_PREFLIGHT: " (concat r.name (concat " - " violation));
      risk_score = p.risk_score;
      flags = flags;
      triggered_rules = triggered ++ r.name ∷ [];
    }
    | flag ↦
        analyze_rules rest p (flags ++ concat r.name (concat ": " violation) ∷ [])
          (triggered ++ r.name ∷ [])
  ]
]

unfoldable pub analyze : ExecutionProposal → PreflightResult
unfolding analyze_rules
analyze p = analyze_rules rules p [] []

-- A rule that does not stop the proposal.
abbrev Passes : ExecutionProposal → PreflightRule → Type 0
Passes p r = (r.severity ≡ flag) ⊎ (r.evaluate p ≡ none)

RuleSeverity-cases : (s : RuleSeverity) → (s ≡ block) ⊎ (s ≡ flag)
RuleSeverity-cases block = inl refl
RuleSeverity-cases flag = inr refl

analyze_rules-Passes :
    (rs : List PreflightRule) (p : ExecutionProposal) (flags triggered : List String)
    → ((analyze_rules rs p flags triggered).valid ≡ true) ↔ All (Passes p) rs
unfolding analyze_rules
analyze_rules-Passes [] p flags triggered = (λ h. tt, λ h. refl)
analyze_rules-Passes (r ∷ rs) p flags triggered = elim (Option-cases (r.evaluate p)) [
  | inl h ↦
      let ih = analyze_rules-Passes rs p flags triggered in
      (λ v. (inr h, ih.0 (ground (arith, h, v))), λ all. ground (arith, h, ih.1 all.1))
  | inr (violation, h) ↦ elim (RuleSeverity-cases r.severity) [
    | inl b ↦ (λ v. ground (arith, h, b, v), λ all. ground (arith, h, b, all.0))
    | inr b ↦
        let ih =
          analyze_rules-Passes rs p (flags ++ concat r.name (concat ": " violation) ∷ [])
            (triggered ++ r.name ∷ []) in
        (λ v. (inl b, ih.0 (ground (arith, h, b, v))), λ all. ground (arith, h, b, ih.1 all.1))
  ]
]

unless-none : (b : Bool) (violation : String) → (unless b violation ≡ none) ↔ (b ≡ true)
unless-none b violation = ground arith

known_capabilities-none :
    (caps : List String)
    → (check_known_capabilities caps ≡ none) ↔ All (λ cap. member cap all_capabilities ≡ true) caps
unfolding check_known_capabilities
known_capabilities-none [] = (λ h. tt, λ h. refl)
known_capabilities-none (cap ∷ caps) =
    let ih = known_capabilities-none caps in
    (λ h. (ground (arith, h), ih.0 (ground (arith, h))), λ h. ground (arith, ih.1 h.1, h.0))

write_has_target-none :
    (p : ExecutionProposal)
    → (check_write_has_target p ≡ none)
      ↔ (member "filesystem.write" p.required_capabilities ≡ true → target_truthy p.target ≡ true)
unfolding check_write_has_target
write_has_target-none p = (
  λ h w. ground (arith, h, w),
  λ h. elim (Bool-cases (member "filesystem.write" p.required_capabilities)) [
    | inl w ↦ ground (arith, w, h w)
    | inr w ↦ ground (arith, w)
  ],
)

-- What the preflight check asks of a proposal, stated without its rules.
pub record IsSound (p : ExecutionProposal) : Type 0 where
  pub has_action : text_truthy p.action ≡ true
  pub has_event : text_truthy p.event_id ≡ true
  pub has_session : text_truthy p.session_id ≡ true
  pub confidence_in_unit : in_unit p.confidence ≡ true
  pub risk_in_unit : in_unit p.risk_score ≡ true
  pub has_capabilities : not_empty p.required_capabilities ≡ true
  pub knows_capabilities : All (λ cap. member cap all_capabilities ≡ true) p.required_capabilities
  pub write_has_target :
      member "filesystem.write" p.required_capabilities ≡ true → target_truthy p.target ≡ true

not_flagged : {o : Option String} → (block ≡ flag) ⊎ (o ≡ none) → o ≡ none
not_flagged (inl f) = ground (arith, f)
not_flagged (inr e) = e

-- A proposal passes the preflight check exactly when it has an action, an event and a session, its
-- confidence and its risk lie in the unit interval, it names at least one capability, every
-- capability it names is known, and one that writes files has a target. The combination of the
-- network and writing at a high risk does not stop it.
pub analyze-IsSound : (p : ExecutionProposal) → ((analyze p).valid ≡ true) ↔ IsSound p
unfolding analyze
analyze-IsSound p = (
  λ v.
      let (a, (b, (c, (d, (e, (f, (g, (_, (i, _))))))))) =
        (analyze_rules-Passes rules p [] []).0 v in
      record {
        has_action = (unless-none _ _).0 (not_flagged a);
        has_event = (unless-none _ _).0 (not_flagged b);
        has_session = (unless-none _ _).0 (not_flagged c);
        confidence_in_unit = (unless-none _ _).0 (not_flagged d);
        risk_in_unit = (unless-none _ _).0 (not_flagged e);
        has_capabilities = (unless-none _ _).0 (not_flagged f);
        knows_capabilities = (known_capabilities-none _).0 (not_flagged g);
        write_has_target = (write_has_target-none p).0 (not_flagged i);
      },
  λ s. (analyze_rules-Passes rules p [] []).1 (
    inr ((unless-none _ _).1 s.has_action),
    (
      inr ((unless-none _ _).1 s.has_event),
      (
        inr ((unless-none _ _).1 s.has_session),
        (
          inr ((unless-none _ _).1 s.confidence_in_unit),
          (
            inr ((unless-none _ _).1 s.risk_in_unit),
            (
              inr ((unless-none _ _).1 s.has_capabilities),
              (
                inr ((known_capabilities-none _).1 s.knows_capabilities),
                (inl refl, (inr ((write_has_target-none p).1 s.write_has_target), tt)),
              ),
            ),
          ),
        ),
      ),
    ),
  ),
)

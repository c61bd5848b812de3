-- ===== src/Sandbox/Enforcer.antt =====
-- cognitive_runtime/sandbox/capability_enforcer.py: the gate that every execution passes.
--
-- The set of restricted capabilities is a list; what the code adds twice is removed by one removal.
use Prim.Native.String.{◌++◌ as concat}
use stocky_cognitive_runtime.Prelude.{
  ◌≡◌, ◌↔◌, refl, String, Bool, true, false, not, Option, none, some, List, [], ◌∷◌, map, any, keep,
  All, arith, str_eq, eq_iff, eq_refl, if◌then◌else◌, Bool-cases, inl, inr,
}
use stocky_cognitive_runtime.Data.Contract.{
  Capability, filesystem_read, filesystem_write, process_execute, network_http, runtime_spawn,
  audit_read, replay_read, counterfactual_analyze, value,
}

-- `text in texts`
abbrev pub member : String → List String → Bool
member text texts = any (λ t. str_eq t text) texts

-- The values of `Capability`.
abbrev pub all_capabilities : List String
all_capabilities = map value (
    filesystem_read ∷ filesystem_write ∷ process_execute ∷ network_http ∷ runtime_spawn ∷ audit_read
    ∷ replay_read ∷ counterfactual_analyze ∷ [])

pub record CapabilityEnforcer : Type 0 where
  pub allowed : List String
  pub restricted : List String

abbrev pub new_enforcer : CapabilityEnforcer
new_enforcer = record { allowed = all_capabilities; restricted = [] }

pub data EnforcementVerdict : Type 0 where
  allow block : EnforcementVerdict

pub record EnforcementResult : Type 0 where
  pub verdict : EnforcementVerdict
  pub reason : String
  pub capability : String

unfoldable pub restrict : CapabilityEnforcer → Capability → CapabilityEnforcer
restrict e capability = record e {
  restricted =
      if member (value capability) e.restricted
      then e.restricted
      else value capability ∷ e.restricted;
}

unfoldable pub unrestrict : CapabilityEnforcer → Capability → CapabilityEnforcer
unrestrict e capability = record e {
  restricted = keep (λ t. not (str_eq t (value capability))) e.restricted;
}

-- The two refusals of the loop's body, `none` to go on.
unfoldable pub check_one : CapabilityEnforcer → String → Option EnforcementResult
check_one e cap =
    if not (member cap e.allowed)
    then some
        (record { verdict = block; reason = concat "unknown_capability: " cap; capability = cap })
    else if member cap e.restricted
    then some (record {
      verdict = block;
      reason = concat "restricted_capability: " cap;
      capability = cap;
    })
    else none

abbrev pub allow_all : EnforcementResult
allow_all = record { verdict = allow; reason = "all_capabilities_allowed"; capability = "" }

abbrev or_rest : Option EnforcementResult → EnforcementResult → EnforcementResult
or_rest none rest = rest
or_rest (some refusal) rest = refusal

unfoldable pub check : CapabilityEnforcer → List String → EnforcementResult
unfolding check_one
check e [] = allow_all
check e (cap ∷ caps) = let rest = check e caps in or_rest (check_one e cap) rest

-- A capability that the enforcer knows and has not restricted.
abbrev pub IsFree : CapabilityEnforcer → String → Type 0
IsFree e cap = (member cap e.allowed ≡ true) × (member cap e.restricted ≡ false)

-- The gate opens exactly when every required capability is known and unrestricted.
pub check-IsFree :
    (e : CapabilityEnforcer) (caps : List String)
    → ((check e caps).verdict ≡ allow) ↔ All (IsFree e) caps
unfolding check
check-IsFree e [] = (λ h. tt, λ h. refl)
check-IsFree e (cap ∷ caps) =
    let ih = check-IsFree e caps in
    (λ h. ((ground arith, ground arith), ih.0 (ground arith)), λ h. ground (arith, ih.1 h.1))

member-keep :
    (gone text : String) (texts : List String)
    → member text (keep (λ t. not (str_eq t gone)) texts)
      ≡ (if str_eq gone text then false else member text texts)
member-keep gone text [] = ground arith
member-keep gone text (t ∷ texts) =
    ground (arith, member-keep gone text texts, eq_iff t gone, eq_iff t text, eq_iff gone text)

-- A restriction blocks every request that names the capability, and lifting it leaves the verdict
-- on every other text as it was and makes the capability unrestricted.
restrict-unrestrict :
    (e : CapabilityEnforcer) (c : Capability) (text : String)
    → (member (value c) (restrict e c).restricted ≡ true)
      × (member text (unrestrict (restrict e c) c).restricted
          ≡ (if str_eq (value c) text then false else member text e.restricted))
unfolding restrict unrestrict
restrict-unrestrict e c text = elim (Bool-cases (member (value c) e.restricted)) [
  | inl h ↦ (ground (arith, h), ground (arith, h, member-keep (value c) text e.restricted))
  | inr h ↦ (
    ground (arith, h, eq_refl (value c)),
    ground (arith, h, member-keep (value c) text (value c ∷ e.restricted), eq_refl (value c)),
  )
]

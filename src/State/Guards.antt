-- ===== src/State/Guards.antt =====
-- cognitive_runtime/state/transition_rules.py: the rules that guard a transition.
--
-- A rule's condition is a callable of the client. It is a parameter of the rule, as a function of
-- the two states; `execution_id_present` reads the execution id when it is called.
use stocky_cognitive_runtime.Prelude.{
  ◌≡◌, ◌↔◌, refl, String, Bool, true, false, not, ◌&&◌, Option, none, some, List, [], ◌∷◌, ◌++◌,
  arith, All, if◌then◌else◌, str_eq,
}
use stocky_cognitive_runtime.State.{RuntimeState, same_state}

-- `tuple[bool, Optional[str]]`
abbrev pub Check : Type 0
Check = Bool × Option String

abbrev pub GuardCheck : Type 0
GuardCheck = RuntimeState → RuntimeState → Check

pub record TransitionRule : Type 0 where
  pub source : RuntimeState
  pub target : RuntimeState
  pub condition : Option GuardCheck
  pub description : String

evaluate_condition : Option GuardCheck → RuntimeState → RuntimeState → Check
evaluate_condition none current target = (true, none)
evaluate_condition (some condition) current target = condition current target

unfoldable pub evaluate : TransitionRule → RuntimeState → RuntimeState → Check
unfolding evaluate_condition
evaluate r current target =
    if not (same_state current r.source && same_state target r.target)
    then (true, none)
    else evaluate_condition r.condition current target

pub record TransitionGuard : Type 0 where
  pub pre_rules : List TransitionRule
  pub post_rules : List TransitionRule

pub add_pre_rule : TransitionGuard → TransitionRule → TransitionGuard
add_pre_rule g rule = record g { pre_rules = g.pre_rules ++ rule ∷ [] }

pub add_post_rule : TransitionGuard → TransitionRule → TransitionGuard
add_post_rule g rule = record g { post_rules = g.post_rules ++ rule ∷ [] }

-- The loop that `check_pre` and `check_post` share: the first rule that is not passed decides.
pub check_rules : List TransitionRule → RuntimeState → RuntimeState → Check
check_rules [] current target = (true, none)
check_rules (rule ∷ rules) current target =
    let rest = check_rules rules current target in
    let verdict = evaluate rule current target in if not verdict.0 then (false, verdict.1) else rest

pub check_pre : TransitionGuard → RuntimeState → RuntimeState → Check
check_pre g = check_rules g.pre_rules

pub check_post : TransitionGuard → RuntimeState → RuntimeState → Check
check_post g = check_rules g.post_rules

unfoldable pub no_pending_locks : GuardCheck
no_pending_locks current target = (true, none)

pub execution_id_present : String → GuardCheck
execution_id_present id current target =
    if not (str_eq id "") then (true, none) else (false, some "no_execution_id")

abbrev pub Passes : RuntimeState → RuntimeState → TransitionRule → Type 0
Passes current target rule = (evaluate rule current target).0 ≡ true

check_rules_iff :
    (rules : List TransitionRule) (current target : RuntimeState)
    → ((check_rules rules current target).0 ≡ true) ↔ All (Passes current target) rules
unfolding check_rules
check_rules_iff [] current target = (λ h. tt, λ h. refl)
check_rules_iff (rule ∷ rules) current target =
    let ih = check_rules_iff rules current target in
    (λ h. (ground arith, ih.0 (ground arith)), λ h. ground (arith, ih.1 h.1))

check_rules_first :
    (before : List TransitionRule) (rule : TransitionRule) (after : List TransitionRule)
    (current target : RuntimeState)
    → All (Passes current target) before
    → (evaluate rule current target).0 ≡ false
    → check_rules (before ++ rule ∷ after) current target
      ≡ (false, (evaluate rule current target).1)
unfolding check_rules
check_rules_first [] rule after current target h fails = ground arith
check_rules_first (r ∷ before) rule after current target h fails =
    ground (arith, check_rules_first before rule after current target h.1 fails)

-- The pre-check passes exactly when every pre-rule does, and so does the post-check with the
-- post-rules.
check-Passes :
    (g : TransitionGuard) (current target : RuntimeState)
    → (((check_pre g current target).0 ≡ true) ↔ All (Passes current target) g.pre_rules)
      × (((check_post g current target).0 ≡ true) ↔ All (Passes current target) g.post_rules)
unfolding check_pre check_post
check-Passes g current target =
    (check_rules_iff g.pre_rules current target, check_rules_iff g.post_rules current target)

-- The first pre-rule that fails gives the pre-check its error, whatever rules come after it.
check_pre_first :
    (g : TransitionGuard) (before : List TransitionRule) (rule : TransitionRule)
    (after : List TransitionRule) (current target : RuntimeState)
    → g.pre_rules ≡ before ++ rule ∷ after
    → All (Passes current target) before
    → (evaluate rule current target).0 ≡ false
    → check_pre g current target ≡ (false, (evaluate rule current target).1)
unfolding check_pre
check_pre_first g before rule after current target e h fails =
    rw e (check_rules_first before rule after current target h fails)

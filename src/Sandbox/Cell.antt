-- ===== src/Sandbox/Cell.antt =====
-- cognitive_runtime/sandbox/execution_cell.py: one run of the worker behind the capability gate.
--
-- The worker and `asyncio.wait_for` are given by the outcome of the call, the clock by its readings,
-- the audit callback by the calls it gets.
use Prim.Native.String.{◌++◌ as concat}
use stocky_cognitive_runtime.Prelude.{
  ℕ, ◌≡◌, ◌↔◌, ◌⊎◌, inl, inr, refl, String, Bool, true, false, Option, none, some, List, [], ◌∷◌,
  All, arith,
}
use stocky_cognitive_runtime.Data.Json.{Json}
use stocky_cognitive_runtime.Data.Contract.{
  ExecutionProposal, PolicyDecision, ExecutionResult, ResultStatus, success, failed,
}
use stocky_cognitive_runtime.Sandbox.Enforcer.{
  CapabilityEnforcer, EnforcementResult, EnforcementVerdict, allow, block, check, check-IsFree,
  IsFree,
}

-- How the awaited call of the worker ends.
pub data WorkerOutcome : Type 0 where
  returned : Json → WorkerOutcome
  timed_out : WorkerOutcome
  raised : String → WorkerOutcome

pub record CellContext : Type 0 where
  pub cell_id : String
  pub proposal : ExecutionProposal
  pub decision : PolicyDecision
  pub created_at : ℕ
  pub frozen : Bool

-- A call of the audit callback: its first argument and the fields of its second.
pub data Audit : Type 0 where
  capability_blocked : (cell_id capability reason : String) → Audit
  timeout : (cell_id : String) → (max_time_ms : ℕ) → Audit
  execution_error : (cell_id error : String) → Audit
  cell_completed : (execution_id : String) → ResultStatus → Json → Audit

-- What one run reads from outside: the new identifier, the three clock readings, and the worker,
-- with `show` for `str` on a number.
pub record Surroundings : Type 0 where
  pub uuid : String
  pub created : ℕ
  pub started : ℕ
  pub finished : ℕ
  pub show : ℕ → String
  pub worker : ExecutionProposal → PolicyDecision → WorkerOutcome

-- A run: the result, the context it leaves, the audit calls, and whether the worker was called.
pub record CellRun : Type 0 where
  pub result : ExecutionResult
  pub context : CellContext
  pub audits : List Audit
  pub called : Bool

abbrev make_result :
    Surroundings
    → ExecutionProposal
    → ResultStatus
    → Option Json
    → Option String
    → ℕ
    → ExecutionResult
make_result s p status output error started = record {
  execution_id = concat "cell-" s.uuid;
  proposal_id = p.proposal_id;
  session_id = p.session_id;
  status = status;
  output = output;
  error = error;
  started_at = started;
  finished_at = s.finished;
  correlation_id = "";
}

abbrev make_context : Surroundings → ExecutionProposal → PolicyDecision → Bool → CellContext
make_context s p d frozen = record {
  cell_id = s.uuid;
  proposal = p;
  decision = d;
  created_at = s.created;
  frozen = frozen;
}

-- The branches of the `try`.
unfoldable pub after_worker :
    ℕ → Surroundings → ExecutionProposal → PolicyDecision → WorkerOutcome → CellRun
after_worker max_time_ms s p d (returned output) = record {
  result = make_result s p success (some output) none s.started;
  context = make_context s p d true;
  audits = [];
  called = true;
}
after_worker max_time_ms s p d timed_out = record {
  result =
      make_result s p failed none
        (some (concat "execution_timeout_exceeded_" (concat (s.show max_time_ms) "ms"))) s.started;
  context = make_context s p d true;
  audits = timeout s.uuid max_time_ms ∷ [];
  called = true;
}
after_worker max_time_ms s p d (raised e) = record {
  result = make_result s p failed none (some e) s.started;
  context = make_context s p d true;
  audits = execution_error s.uuid e ∷ [];
  called = true;
}

-- `execute`, from the verdict of the gate.
unfoldable pub after_gate :
    ℕ → Surroundings → ExecutionProposal → PolicyDecision → EnforcementResult → CellRun
unfolding after_worker
after_gate max_time_ms s p d enforcement = elim enforcement.verdict [
  | block ↦ record {
    result =
        make_result s p failed none (some (concat "capability_blocked: " enforcement.reason))
          s.created;
    context = make_context s p d false;
    audits = capability_blocked s.uuid enforcement.capability enforcement.reason ∷ [];
    called = false;
  }
  | allow ↦ after_worker max_time_ms s p d (s.worker p d)
]

unfoldable pub execute_cell :
    CapabilityEnforcer → ℕ → Surroundings → ExecutionProposal → PolicyDecision → CellRun
unfolding after_gate
execute_cell e max_time_ms s p d = after_gate max_time_ms s p d (check e p.required_capabilities)

after_worker-called :
    (max : ℕ) (s : Surroundings) (p : ExecutionProposal) (d : PolicyDecision) (o : WorkerOutcome)
    → (after_worker max s p d o).called ≡ true
unfolding after_worker
after_worker-called max s p d (returned output) = refl
after_worker-called max s p d timed_out = refl
after_worker-called max s p d (raised e) = refl

after_worker-success :
    (max : ℕ) (s : Surroundings) (p : ExecutionProposal) (d : PolicyDecision) (o : WorkerOutcome)
    → ((after_worker max s p d o).result.status ≡ success)
      ↔ ((output : Json) × (o ≡ returned output))
unfolding after_worker
after_worker-success max s p d (returned output) = (λ h. (output, refl), λ h. refl)
after_worker-success max s p d timed_out = (λ h. ground (arith, h), λ h. ground (arith, h.1))
after_worker-success max s p d (raised e) = (λ h. ground (arith, h), λ h. ground (arith, h.1))

EnforcementVerdict-cases : (v : EnforcementVerdict) → (v ≡ allow) ⊎ (v ≡ block)
EnforcementVerdict-cases allow = inl refl
EnforcementVerdict-cases block = inr refl

module _ (max : ℕ) (s : Surroundings) (p : ExecutionProposal) (d : PolicyDecision)
    (r : EnforcementResult) where
  after_gate-called : ((after_gate max s p d r).called ≡ true) ↔ (r.verdict ≡ allow)
  unfolding after_gate
  after_gate-called = elim (EnforcementVerdict-cases r.verdict) [
    | inl v ↦ (λ h. v, λ h. ground (arith, v, after_worker-called max s p d (s.worker p d)))
    | inr v ↦ (λ h. ground (arith, v, h), λ h. ground (arith, v, h))
  ]

  after_gate-success :
      ((after_gate max s p d r).result.status ≡ success)
      ↔ ((r.verdict ≡ allow) × ((output : Json) × (s.worker p d ≡ returned output)))
  unfolding after_gate
  after_gate-success = elim (EnforcementVerdict-cases r.verdict) [
    | inl v ↦
        let ih = after_worker-success max s p d (s.worker p d) in
        (λ h. (v, ih.0 (ground (arith, v, h))), λ h. ground (arith, v, ih.1 h.1))
    | inr v ↦ (λ h. ground (arith, v, h), λ h. ground (arith, v, h.0))
  ]

-- A run calls the worker exactly when every required capability is known and unrestricted, and
-- succeeds exactly when moreover the worker returns in time.
pub execute_cell-IsFree :
    (e : CapabilityEnforcer) (max : ℕ) (s : Surroundings) (p : ExecutionProposal)
    (d : PolicyDecision)
    → (((execute_cell e max s p d).called ≡ true) ↔ All (IsFree e) p.required_capabilities)
      × (((execute_cell e max s p d).result.status ≡ success) ↔ (
          All (IsFree e) p.required_capabilities
          × ((output : Json) × (s.worker p d ≡ returned output))))
unfolding execute_cell
execute_cell-IsFree e max s p d =
    let r = check e p.required_capabilities in
    let gate = check-IsFree e p.required_capabilities in
    let called = after_gate-called max s p d r in
    let succeeds = after_gate-success max s p d r in
    (
      (λ h. gate.0 (called.0 h), λ h. called.1 (gate.1 h)),
      (λ h. (gate.0 (succeeds.0 h).0, (succeeds.0 h).1), λ h. succeeds.1 (gate.1 h.0, h.1)),
    )

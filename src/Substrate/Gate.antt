-- ===== src/Substrate/Gate.antt =====
-- substrate/substrate_loop.py: what stands behind a call of the worker.
use stocky_cognitive_runtime.Prelude.{ℕ, ◌≡◌, refl, Bool, true, false, arith, inl, inr}
use stocky_cognitive_runtime.Prelude.Raise.{ok, err, Result-cases}
use stocky_cognitive_runtime.Data.Contract.{
  HostEvent, ExecutionProposal, Verdict, allow, block, defer, review, PolicyDecision,
}
use stocky_cognitive_runtime.Queue.{EventQueue, Answer}
use stocky_cognitive_runtime.Queue.DeadLetter.{record_decision}
use stocky_cognitive_runtime.Substrate.{
  Stages, settled, blocked, act, recorded, decided, proposed, process_event,
}

module _ (stages : Stages) where
  -- The proposal and the decision that stand behind a call of the worker, the decision recorded.
  pub record IsApproved (q : EventQueue) (e : HostEvent) (now : ℕ) : Type 0 where
    pub proposal : ExecutionProposal
    pub decision : PolicyDecision
    pub proposes : stages.p3 e ≡ ok proposal
    pub decides_so :
        stages.p4 (record proposal { correlation_id = stages.correlation e }) ≡ ok decision
    pub allows : decision.verdict ≡ allow
    pub after_record : EventQueue
    pub records :
        record_decision q (record decision { correlation_id = stages.correlation e }) now
        ≡ ok (tt, after_record)

  settled-called :
      (q : EventQueue) (v : Verdict) (called : Bool) (a : Answer Unit)
      → (settled stages q v called a).called ≡ called
  unfolding settled
  settled-called q v called (ok a) = refl
  settled-called q v called (err e) = refl

  blocked-called :
      (q : EventQueue) (e : HostEvent) (d : PolicyDecision) (now : ℕ)
      → (blocked stages q e d now).called ≡ false
  unfolding blocked
  blocked-called q e d now = settled-called q d.verdict false _

  act-allow :
      (v : Verdict) (q : EventQueue) (e : HostEvent) (p : ExecutionProposal) (d : PolicyDecision)
      (now : ℕ)
      → (act stages v q e p d now).called ≡ true
      → v ≡ allow
  unfolding act
  act-allow allow q e p d now h = refl
  act-allow block q e p d now h = ground (arith, h, blocked-called q e d now)
  act-allow defer q e p d now h = ground (arith, h, blocked-called q e d now)
  act-allow review q e p d now h = ground (arith, h, blocked-called q e d now)

  -- An event's worker is called only after P3 proposed, P4 decided on that proposal with the verdict
  -- ALLOW, and the queue recorded the decision.
  pub process_event-IsApproved :
      (q : EventQueue) (e : HostEvent) (now : ℕ)
      → (process_event stages q e now).called ≡ true
      → IsApproved q e now
  unfolding process_event proposed decided recorded
  process_event-IsApproved q e now h = elim (Result-cases (stages.p3 e)) [
    | inr (x, e3) ↦ ground (arith, h, e3)
    | inl (p, e3) ↦
        let p' = record p { correlation_id = stages.correlation e } in
        elim (Result-cases (stages.p4 p')) [
          | inr (x, e4) ↦ ground (arith, h, e3, e4)
          | inl (d, e4) ↦
              let d' = record d { correlation_id = stages.correlation e } in
              elim (Result-cases (record_decision q d' now)) [
                | inr (x, er) ↦ ground (arith, h, e3, e4, er)
                | inl ((_, q'), er) ↦ record {
                  proposal = p;
                  decision = d;
                  proposes = e3;
                  decides_so = e4;
                  allows = act-allow d.verdict q' e p' d' now (ground (arith, h, e3, e4, er));
                  after_record = q';
                  records = er;
                }
              ]
        ]
  ]

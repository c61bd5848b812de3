-- ===== src/Recovery/Coordinator/Startup.antt =====
-- recovery/recovery_coordinator.py with the manager of recovery/delta_checkpoint.py, as
-- runtime/runtime_loop.py puts them together.
use stocky_cognitive_runtime.Prelude.{
  ◌≡◌, refl, ap, ◌∙◌, true, false, Option, none, some, length, arith,
}
use stocky_cognitive_runtime.Prelude.Raise.{err}
use stocky_cognitive_runtime.Data.Json.{Codec}
use stocky_cognitive_runtime.Recovery.Crash.{CrashIndicator, detect}
use stocky_cognitive_runtime.Recovery.Delta.{
  CheckpointBaseMeta, DeltaCheckpointManager, latest_base,
}
use stocky_cognitive_runtime.Recovery.Delta.Load.{load_latest}
use stocky_cognitive_runtime.Recovery.Coordinator.{
  Latest, Checkpoints, Target, RecoveryReport, Services, checked, loaded, identified, located,
  noted, closed, recover,
}

-- A base has no attribute `checkpoint_id`.
abbrev pub latest_of : CheckpointBaseMeta → Latest
latest_of base = record {
  checkpoint_id = err "'CheckpointBaseMeta' object has no attribute 'checkpoint_id'";
  cycle_count = base.cycle_count;
}

abbrev pub map_latest : Option CheckpointBaseMeta → Option Latest
map_latest none = none
map_latest (some base) = some (latest_of base)

-- The coordinator's view of the manager: its `latest`, `checkpoint_count` and `load_latest`.
unfoldable pub delta_checkpoints : Codec → DeltaCheckpointManager → Checkpoints
unfolding latest_base load_latest
delta_checkpoints codec m = record {
  latest = map_latest (latest_base m.bases);
  checkpoint_count = length m.bases;
  load_latest = load_latest codec m;
}

module _ (services : Services) where
  located_unchanged :
      (i : CrashIndicator) (c : Checkpoints) (b : Option CheckpointBaseMeta) (t : Target)
      (r : RecoveryReport)
      → (located services i c (map_latest b) t r).0 ≡ t
  unfolding located identified loaded checked
  located_unchanged i c none t r = refl
  located_unchanged i c (some base) t r = refl

  located_failed :
      (i : CrashIndicator) (c : Checkpoints) (base : CheckpointBaseMeta) (t : Target)
      (r : RecoveryReport)
      → (located services i c (some (latest_of base)) t r).1.corruption_detected ≡ true
  unfolding located identified
  located_failed i c base t r = refl

  closed_failed :
      (r : RecoveryReport) → r.corruption_detected ≡ true → (closed services r).success ≡ false
  closed_failed r h = ground (arith, h)

  -- With the delta checkpoint manager of the runtime's loop, and a base checkpoint in it, a recovery
  -- restores nothing, whatever the checkpoint holds: state and traces stay as they were, and the
  -- report says that the recovery failed.
  pub recover_unchanged :
      (codec : Codec) (m : DeltaCheckpointManager) (t : Target) (base : CheckpointBaseMeta)
      → latest_base m.bases ≡ some base
      → ((recover services (delta_checkpoints codec m) t).0 ≡ t)
        × ((recover services (delta_checkpoints codec m) t).1.success ≡ false)
  unfolding recover delta_checkpoints
  recover_unchanged codec m t base e =
      let c = delta_checkpoints codec m in
      let i =
        detect services.number_at_end services.texts.show t.state t.traces.active t.processed in
      let r = noted services i in
      (
        located_unchanged i c (latest_base m.bases) t r,
        closed_failed (located services i c (map_latest (latest_base m.bases)) t r).1 (
            ap (λ b. (located services i c (map_latest b) t r).1.corruption_detected) e
            ∙ located_failed i c base t r),
      )

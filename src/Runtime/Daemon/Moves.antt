-- ===== src/Runtime/Daemon/Moves.antt =====
-- runtime_daemon.py: the moves of the lifecycle over any sequence of calls and crashes.
use mathlib.Core.Path.{subst}
use stocky_cognitive_runtime.Prelude.{
  ℕ, ◌≡◌, inl, inr, refl, String, Bool, true, false, not, Option, none, some, List, if◌then◌else◌,
  [], ◌∷◌, Bool-cases,
}
use stocky_cognitive_runtime.Runtime.Lifecycle.{
  LifecycleState, stopped, booting, running, paused, recovering, shutdown, can_transition,
  assert_transition, same_lifecycle,
}
use stocky_cognitive_runtime.Runtime.Crash.{Exception, classify}
use stocky_cognitive_runtime.Runtime.Daemon.{
  RuntimeDaemon, Raises, on_valid, enter, expect, booted, boot_stopped, recovered_first, boot,
  shut_down, pause_daemon, resume_daemon, after_recovery, is_recoverable, booting_up, boot_stopped,
  stop_loop, pause_running, resume_paused, try_recovery, handle_event_crash,
}

pub data Call : Type 0 where
  boots : ℕ → Option String → Bool → Call
  shuts_down pauses resumes : Call
  crashes : Exception → String → Option String → Call

unfoldable pub step : RuntimeDaemon → Call → Raises
step d (boots now recovery starts) = boot d now recovery starts
step d shuts_down = shut_down d
step d pauses = pause_daemon d
step d resumes = resume_daemon d
step d (crashes exc text recovery) = handle_event_crash d exc text recovery

unfoldable pub run : RuntimeDaemon → List Call → RuntimeDaemon
run d [] = d
run d (c ∷ cs) = run (step d c).0 cs

abbrev pub is_live : LifecycleState → Bool
is_live running = true
is_live paused = true
is_live _ = false

abbrev pub is_over : LifecycleState → Bool
is_over stopped = true
is_over shutdown = true
is_over _ = false

-- The states in which a call or a crash has an effect on the lifecycle.
unfoldable pub takes : Call → LifecycleState → Bool
takes (boots now recovery starts) s = same_lifecycle s stopped
takes shuts_down s = not (is_over s)
takes pauses s = same_lifecycle s running
takes resumes s = same_lifecycle s paused
takes (crashes exc text recovery) s =
    if is_recoverable (classify exc) then is_live s else not (is_over s)

-- What a call does to the lifecycle, from the state before it to the state behind it.
pub data Moved : Call → LifecycleState → LifecycleState → Type 0 where
  unmoved : (c : Call) (s : LifecycleState) → takes c s ≡ false → Moved c s s
  boots_up : (now : ℕ) (r : Option String) → Moved (boots now r true) stopped running
  gives_up : (now : ℕ) (r : Option String) → Moved (boots now r false) stopped shutdown
  breaks_off :
      (now : ℕ) (failure : String) (starts : Bool)
      → Moved (boots now (some failure) starts) stopped booting
  ends : (s : LifecycleState) → is_over s ≡ false → Moved shuts_down s shutdown
  holds : Moved pauses running paused
  goes_on : Moved resumes paused running
  recovers :
      (s : LifecycleState) (exc : Exception) (text : String)
      → is_live s ≡ true
      → is_recoverable (classify exc) ≡ true
      → Moved (crashes exc text none) s running
  fails :
      (s : LifecycleState) (exc : Exception) (text failure : String)
      → is_live s ≡ true
      → is_recoverable (classify exc) ≡ true
      → Moved (crashes exc text (some failure)) s shutdown
  breaks_down :
      (s : LifecycleState) (exc : Exception) (text : String) (r : Option String)
      → is_over s ≡ false
      → is_recoverable (classify exc) ≡ false
      → Moved (crashes exc text r) s shutdown

abbrev at_state : RuntimeDaemon → LifecycleState → RuntimeDaemon
at_state d s = record d { lifecycle = s }

crash_recoverable :
    (d : RuntimeDaemon) (s : LifecycleState) (exc : Exception) (text : String) (r : Option String)
    → is_recoverable (classify exc) ≡ true
    → Moved (crashes exc text r) s (handle_event_crash (at_state d s) exc text r).0.lifecycle
unfolding handle_event_crash enter try_recovery after_recovery on_valid can_transition
    assert_transition takes
crash_recoverable d running exc text none e = rw e (recovers running exc text refl e)
crash_recoverable d running exc text (some x) e = rw e (fails running exc text x refl e)
crash_recoverable d paused exc text none e = rw e (recovers paused exc text refl e)
crash_recoverable d paused exc text (some x) e = rw e (fails paused exc text x refl e)
crash_recoverable d stopped exc text r e = rw e (unmoved _ stopped (rw e refl))
crash_recoverable d booting exc text r e = rw e (unmoved _ booting (rw e refl))
crash_recoverable d recovering exc text r e = rw e (unmoved _ recovering (rw e refl))
crash_recoverable d shutdown exc text r e = rw e (unmoved _ shutdown (rw e refl))

crash_fatal :
    (d : RuntimeDaemon) (s : LifecycleState) (exc : Exception) (text : String) (r : Option String)
    → is_recoverable (classify exc) ≡ false
    → Moved (crashes exc text r) s (handle_event_crash (at_state d s) exc text r).0.lifecycle
unfolding handle_event_crash enter on_valid can_transition assert_transition takes
crash_fatal d stopped exc text r e = rw e (unmoved _ stopped (rw e refl))
crash_fatal d shutdown exc text r e = rw e (unmoved _ shutdown (rw e refl))
crash_fatal d booting exc text r e = rw e (breaks_down booting exc text r refl e)
crash_fatal d running exc text r e = rw e (breaks_down running exc text r refl e)
crash_fatal d paused exc text r e = rw e (breaks_down paused exc text r refl e)
crash_fatal d recovering exc text r e = rw e (breaks_down recovering exc text r refl e)

crash-Moved :
    (d : RuntimeDaemon) (s : LifecycleState) (exc : Exception) (text : String) (r : Option String)
    → Moved (crashes exc text r) s (handle_event_crash (at_state d s) exc text r).0.lifecycle
crash-Moved d s exc text r = elim (Bool-cases (is_recoverable (classify exc))) [
  | inl e ↦ crash_recoverable d s exc text r e
  | inr e ↦ crash_fatal d s exc text r e
]

boot-Moved :
    (d : RuntimeDaemon) (recovered : Bool) (now : ℕ) (recovery : Option String) (starts : Bool)
    → Moved
        (boots now recovery starts)
        stopped
        (boot
          (record d { lifecycle = stopped; recovery_completed = recovered })
          now
          recovery
          starts).0.lifecycle
unfolding boot boot_stopped expect enter booting_up recovered_first booted on_valid can_transition
    assert_transition
boot-Moved d true now r true = boots_up now r
boot-Moved d true now r false = gives_up now r
boot-Moved d false now none true = boots_up now none
boot-Moved d false now none false = gives_up now none
boot-Moved d false now (some x) starts = breaks_off now x starts

step_at-Moved :
    (d : RuntimeDaemon) (s : LifecycleState) (c : Call)
    → Moved c s (step (at_state d s) c).0.lifecycle
unfolding step shut_down pause_daemon resume_daemon boot expect enter on_valid can_transition
    assert_transition pause_running resume_paused stop_loop takes
step_at-Moved d stopped (boots now r starts) = boot-Moved d d.recovery_completed now r starts
step_at-Moved d booting (boots now r starts) = unmoved _ _ refl
step_at-Moved d running (boots now r starts) = unmoved _ _ refl
step_at-Moved d paused (boots now r starts) = unmoved _ _ refl
step_at-Moved d recovering (boots now r starts) = unmoved _ _ refl
step_at-Moved d shutdown (boots now r starts) = unmoved _ _ refl
step_at-Moved d stopped shuts_down = unmoved _ _ refl
step_at-Moved d shutdown shuts_down = unmoved _ _ refl
step_at-Moved d booting shuts_down = ends booting refl
step_at-Moved d running shuts_down = ends running refl
step_at-Moved d paused shuts_down = ends paused refl
step_at-Moved d recovering shuts_down = ends recovering refl
step_at-Moved d running pauses = holds
step_at-Moved d stopped pauses = unmoved _ _ refl
step_at-Moved d booting pauses = unmoved _ _ refl
step_at-Moved d paused pauses = unmoved _ _ refl
step_at-Moved d recovering pauses = unmoved _ _ refl
step_at-Moved d shutdown pauses = unmoved _ _ refl
step_at-Moved d paused resumes = goes_on
step_at-Moved d stopped resumes = unmoved _ _ refl
step_at-Moved d booting resumes = unmoved _ _ refl
step_at-Moved d running resumes = unmoved _ _ refl
step_at-Moved d recovering resumes = unmoved _ _ refl
step_at-Moved d shutdown resumes = unmoved _ _ refl
step_at-Moved d s (crashes exc text r) = crash-Moved d s exc text r

step-Moved : (d : RuntimeDaemon) (c : Call) → Moved c d.lifecycle (step d c).0.lifecycle
step-Moved d c = step_at-Moved d d.lifecycle c

-- The moves of calls, one after the other.
pub data Moves : List Call → LifecycleState → LifecycleState → Type 0 where
  no_calls : (s : LifecycleState) → Moves [] s s
  then_calls :
      {c : Call} {cs : List Call} {s t u : LifecycleState}
      → Moved c s t
      → Moves cs t u
      → Moves (c ∷ cs) s u

pub run-Moves : (d : RuntimeDaemon) (cs : List Call) → Moves cs d.lifecycle (run d cs).lifecycle
unfolding run
run-Moves d [] = no_calls d.lifecycle
run-Moves d (c ∷ cs) = then_calls (step-Moved d c) (run-Moves (step d c).0 cs)

shutdown-Moved : {c : Call} {t : LifecycleState} → Moved c shutdown t → t ≡ shutdown
shutdown-Moved (unmoved c s h) = refl
shutdown-Moved (ends s over) = refl
shutdown-Moved (recovers s exc text live e) = cc
shutdown-Moved (fails s exc text x live e) = refl
shutdown-Moved (breaks_down s exc text r over e) = refl

pub shutdown-Moves : (cs : List Call) (t : LifecycleState) → Moves cs shutdown t → t ≡ shutdown
shutdown-Moves [] t (no_calls s) = refl
shutdown-Moves (c ∷ cs) t (then_calls m ms) =
    shutdown-Moves cs t (subst (λ s. Moves cs s t) (shutdown-Moved m) ms)

-- ===== src/Activator/Jobs.antt =====
-- The calls and the activation jobs that create, settle and drop completions, in any order, as the
-- workflow's code, its scopes and the server make them (packages/workflow/src/internals.ts).
pub mod Frugal
pub mod Consistent
pub mod Opens
pub mod Once
pub mod Unknown
use sdk_typescript.Prelude.{ℕ, String, Option, List, [], ◌∷◌}
use sdk_typescript.Errors.{JsError}
use sdk_typescript.Activator.{Activator, Completion, Exec}
use sdk_typescript.Activator.Completions.{
  Host, TaskResult, fire_timer, resolve_activity, resolve_child_workflow_execution,
  resolve_signal_external_workflow, resolve_request_cancel_external_workflow,
}
use sdk_typescript.Activator.Nexus.{
  ChildStart, resolve_child_workflow_execution_start, resolve_nexus_operation_start,
  resolve_nexus_operation,
}
use sdk_typescript.Activator.Schedule.{
  Scope, schedule_timer, schedule_activity_task, start_child, signal_external,
  start_nexus_operation, cancel_timer_task, cancel_activity_task, cancel_child, cancel_signal,
  cancel_nexus_operation,
}

pub data Job : Type 0 where
  timer_scheduled activity_scheduled signal_sent : Scope → Completion → Job
  child_started : Scope → Completion → Completion → Job
  nexus_started : Scope → Option String → Completion → Job
  timer_cancelled : ℕ → JsError → Job
  activity_cancelled child_cancelled signal_cancelled nexus_cancelled : ℕ → Job
  timer_fired : Option ℕ → Job
  activity_resolved child_resolved : Option ℕ → Option TaskResult → Job
  child_start_resolved : Option ℕ → ChildStart → Job
  signal_resolved cancel_resolved : Option ℕ → Option String → Job
  nexus_start_resolved nexus_resolved : Option ℕ → Option String → Option String → Job

module _ (host : Host) where
  unfoldable pub perform : Job → Exec (Unit {0})
  perform (timer_scheduled scope c) = schedule_timer scope c
  perform (activity_scheduled scope c) = schedule_activity_task scope c
  perform (signal_sent scope c) = signal_external scope c
  perform (child_started scope c d) = start_child scope c d
  perform (nexus_started scope service c) = start_nexus_operation scope service c
  perform (timer_cancelled n e) = cancel_timer_task n e
  perform (activity_cancelled n) = cancel_activity_task n
  perform (child_cancelled n) = cancel_child n
  perform (signal_cancelled n) = cancel_signal n
  perform (nexus_cancelled n) = cancel_nexus_operation n
  perform (timer_fired seq) = fire_timer seq
  perform (activity_resolved seq r) = resolve_activity host seq r
  perform (child_resolved seq r) = resolve_child_workflow_execution host seq r
  perform (child_start_resolved seq s) = resolve_child_workflow_execution_start host seq s
  perform (signal_resolved seq f) = resolve_signal_external_workflow host seq f
  perform (cancel_resolved seq f) = resolve_request_cancel_external_workflow host seq f
  perform (nexus_start_resolved seq t f) = resolve_nexus_operation_start host seq t f
  perform (nexus_resolved seq p f) = resolve_nexus_operation host seq p f

  -- A job that throws keeps what it wrote.
  unfoldable pub run : List Job → Activator → Activator
  run [] a = a
  run (job ∷ jobs) a = run jobs (perform job a).1

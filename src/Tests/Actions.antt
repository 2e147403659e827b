-- ===== src/Tests/Actions.antt =====
-- A registry with two actions: one in the foreground, with a confirmation, and one in the background.
use pilothouse.Base.{
  ◌≡◌, ◌≢◌, refl, ◌↔◌, String, true, false, Option, none, some, List, [], ◌∷◌, count, Result, ok,
  lookup, string_eq,
}
use pilothouse.Auth.{Identity}
use pilothouse.Broker.Text.{invalid_text, contains_break}
use pilothouse.Broker.Params.{Parameters, value_at, validate_parameters}
use pilothouse.Broker.Actions.{
  Fault, ActionDefinition, ActionRegistry, Admission, Answers, Event, locked, admit, execute,
}
use pilothouse.Broker.Actions.Admit.{Admitted, admit_iff}
use pilothouse.Broker.Actions.Effects.{is_handled, is_success}
use pilothouse.Broker.Actions.Protocol.{begun_number, untaken, unbegun, follows}
use pilothouse.Broker.Actions.Outcomes.{
  call_events, execute_protocol, execute-abandoned, handler_runs, success_recorded, acts-Admitted,
}

abbrev ada : Identity
ada = record { admin = true; groups = "wheel" ∷ []; uid = 1000; username = "ada" }

abbrev pub succeeding : Identity → Parameters → Option Fault
succeeding identity m = none

abbrev pub by_name : Parameters → Result Fault String
by_name m = ok (value_at "name" m)

abbrev restart : ActionDefinition
restart = record {
  admin = true;
  background = false;
  confirmation_required = true;
  handler = succeeding;
  id = "service.restart";
  lock_resource = none;
  non_blocking = false;
  parameters = "name" ∷ [];
  prepare = none;
  reboot_required = false;
  resource = by_name;
}

abbrev upgrade : ActionDefinition
upgrade = record restart { background = true; confirmation_required = false; id = "system.upgrade" }

abbrev pub registry : ActionRegistry
registry = record {
  actions = ("service.restart", restart) ∷ ("system.upgrade", upgrade) ∷ [];
  has_audit = true;
  has_jobs = true;
  has_problems = true;
}

abbrev pub named : Parameters
named = ("name", "sshd.service") ∷ []

abbrev pub all_well : Answers
all_well = record {
  acquired = true;
  lock_wait = none;
  begin = ok 4;
  enqueue = ok 9;
  start = none;
  job_complete = none;
  audit_complete = none;
}

abbrev admission : ActionDefinition → Admission
admission d = record {
  definition = d;
  parameters = named;
  resource = "sshd.service";
  lock_resource = "sshd.service";
}

restart_admitted :
    admit registry ada "service.restart" named "sshd.service" ≡ ok (admission restart)
unfolding admit lookup validate_parameters invalid_text contains_break
restart_admitted = refl

upgrade_admitted : admit registry ada "system.upgrade" named "" ≡ ok (admission upgrade)
unfolding admit lookup validate_parameters invalid_text contains_break
upgrade_admitted = refl

admit_iff_example :
    (admit registry ada "service.restart" named "sshd.service" ≡ ok (admission restart))
    ↔ Admitted registry ada "service.restart" named "sshd.service" (admission restart)
admit_iff_example =
    admit_iff registry ada "service.restart" named "sshd.service" (admission restart)

execute_protocol_example :
    follows true
      (begun_number all_well.begin)
      untaken
      unbegun
      (call_events registry all_well all_well ada "system.upgrade" named "")
    ≡ some false
execute_protocol_example =
    execute_protocol registry all_well all_well ada "system.upgrade" named "" refl

abbrev without_jobs : ActionRegistry
without_jobs = record registry { has_jobs = false }

execute-abandoned_example :
    follows true
      (begun_number all_well.begin)
      untaken
      unbegun
      (call_events without_jobs all_well all_well ada "system.upgrade" named "")
    ≡ some true
unfolding admit lookup validate_parameters invalid_text contains_break
execute-abandoned_example =
    execute-abandoned without_jobs all_well all_well ada "system.upgrade" named ""
      (admission upgrade) refl refl refl refl refl refl

handler_runs_example :
    count is_handled (call_events registry all_well all_well ada "system.upgrade" named "") ≡ 1
handler_runs_example =
    handler_runs registry all_well all_well ada "system.upgrade" named "" (admission upgrade)
      upgrade_admitted

success_recorded_example :
    count is_success (call_events registry all_well all_well ada "system.upgrade" named "") ≡ 1
success_recorded_example =
    success_recorded registry all_well all_well ada "system.upgrade" named "" (admission upgrade)
      upgrade_admitted

pub something : (x : Event) (xs : List Event) → x ∷ xs ≢ []
something x xs e = cc

acts-Admitted_example :
    (a : Admission) × Admitted registry ada "service.restart" named "sshd.service" a
    × ((rest : List Event) × (execute registry all_well ada "service.restart" named
            "sshd.service").events
          ≡ locked a.lock_resource ∷ rest)
unfolding execute admit lookup validate_parameters invalid_text contains_break
acts-Admitted_example =
    acts-Admitted registry all_well ada "service.restart" named "sshd.service"
      (λ e. something _ _ e)

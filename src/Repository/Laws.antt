-- ===== src/Repository/Laws.antt =====
-- Reading back from the repository what was saved.
use aiops_control_lab.Base.{◌≡◌, ◌==◌, none, some, lookup-insert_self, if◌then◌else◌}
use aiops_control_lab.Domain.Models.{ActionRun}
use aiops_control_lab.Repository.{Repository, get_action_run_by_key, save_action_run}

-- A run that was saved is found under its idempotency key.
pub get_action_run_by_key-save_action_run :
    (run : ActionRun) (r : Repository)
    → get_action_run_by_key run.idempotency_key (save_action_run run r)
      ≡ (if run.id == "" then none else some run)
unfolding get_action_run_by_key save_action_run
get_action_run_by_key-save_action_run run r =
    rw (lookup-insert_self run.idempotency_key run.id r.action_keys, get_action_run_by_key)
      (rw (lookup-insert_self run.id run r.action_runs))

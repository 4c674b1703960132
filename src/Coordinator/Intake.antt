-- ===== src/Coordinator/Intake.antt =====
-- The action defaults of an enqueue (`enqueueWorkItem` and `applyToWorkItem`,
-- source/services/Ultravisor-Beacon-Coordinator.cjs and Ultravisor-Beacon-ActionDefaults.cjs).
use ultravisor.Base.{◌≡◌, refl, Option, none, some, arith}
use ultravisor.Work.{Text}
use ultravisor.Defaults.{Row, apply_to_work_item, priority_or_default}
use ultravisor.Coordinator.State.{Env}
use ultravisor.Coordinator.Enqueue.{WorkItemInfo, new_item, with_defaults}

-- Whatever the table of action defaults holds, the item that an enqueue builds is the same as
-- without it: its timeout, attempts, backoff and priority are all set before the defaults are
-- applied, and those fill in only what is unset.
pub with_defaults-new_item :
    (env : Env) (defaults : Option (Text → Text → Row)) (info : WorkItemInfo)
    → with_defaults defaults info.settings (new_item env info) ≡ new_item env info
unfolding with_defaults new_item apply_to_work_item priority_or_default
with_defaults-new_item env none info = refl
with_defaults-new_item env (some d) info = ground arith

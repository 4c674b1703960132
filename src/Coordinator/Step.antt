-- ===== src/Coordinator/Step.antt =====
-- The coordinator as a machine: calls that the API server, the beacons, the timer and the engine's
-- callbacks make on it, one at a time (source/services/Ultravisor-Beacon-Coordinator.cjs). The timeouts
-- of direct dispatches, `restoreFromJournal` and what the scheduler does on the same maps are no steps
-- of it.
use ultravisor.Base.{Bool, Option}
use ultravisor.Work.{Text}
use ultravisor.Defaults.{Row}
use ultravisor.Coordinator.State.{Env, Coordinator}
use ultravisor.Coordinator.Registry.{BeaconInfo, register_beacon, deregister_beacon, heartbeat}
use ultravisor.Coordinator.Enqueue.{WorkItemInfo, enqueue_work_item}
use ultravisor.Coordinator.Poll.{poll_for_work}
use ultravisor.Coordinator.Finish.{
  complete_work_item, fail_work_item, stall_work_item, on_resumed, on_stalled,
}
use ultravisor.Coordinator.Timeouts.{check_timeouts}
use ultravisor.Coordinator.Requests.{
  update_progress, clear_affinity, dispatch_and_wait, dispatch_and_stream,
}

pub data Call : Type 0 where
  register : BeaconInfo → Text → Call
  deregister beat poll : Text → Call
  enqueue wait_for stream : Option (Text → Text → Row) → WorkItemInfo → Call
  report_done report_stalled report_progress : Text → Call
  report_error : Text → Text → Call
  resumed : Text → Bool → Call
  stall_finished clear : Text → Call
  timer : Call

unfoldable pub step : Env → Call → Coordinator → Coordinator
step env (register info session) c = register_beacon env info session c
step env (deregister b) c = (deregister_beacon b c).0
step env (beat b) c = (heartbeat env b c).0
step env (poll b) c = (poll_for_work env b c).0
step env (enqueue defaults info) c = (enqueue_work_item env defaults info c).0
step env (wait_for defaults info) c = (dispatch_and_wait env defaults info c).0
step env (stream defaults info) c = (dispatch_and_stream env defaults info c).0
step env (report_done h) c = (complete_work_item env h c).0
step env (report_error h message) c = (fail_work_item env h message c).0
step env (report_stalled h) c = (stall_work_item env h c).0
step env (report_progress h) c = (update_progress env h c).0
step env (resumed h done) c = on_resumed h done c
step env (stall_finished h) c = on_stalled h c
step env (clear key) c = (clear_affinity env key c).0
step env timer c = (check_timeouts env c).0

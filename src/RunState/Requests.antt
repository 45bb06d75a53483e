-- ===== src/RunState/Requests.antt =====
-- test_vl.c: the requests that other threads and devices leave for the main loop.
use encoder_with_web_socket.Prelude.{
  ℕ, Bool, true, false, not, ◌&&◌, Option, none, some, ◌==◌, if◌then◌else◌,
}
use encoder_with_web_socket.RunState.{RunState, runstate_set, runstate_check, running, suspended}

-- The variables that the requests go through. A cause or a reason is a number, 0 for none.
pub record Machine : Type 0 where
  pub current : RunState
  pub vmstop_requested : Option RunState
  pub debug_requested : Bool
  pub suspend_requested : Bool
  pub shutdown_requested : ℕ
  pub reset_requested : ℕ
  pub wakeup_reason : ℕ
  pub powerdown_requested : Bool
  pub shutdown_signal : ℕ
  pub no_shutdown : Bool
  pub no_reboot : Bool

-- `qemu_vmstop_requested`: the request, if there is one, is taken.
unfoldable pub qemu_vmstop_requested : Machine → Option RunState × Machine
qemu_vmstop_requested m = (m.vmstop_requested, record m { vmstop_requested = none })

-- `qemu_system_vmstop_request`
unfoldable pub qemu_system_vmstop_request : RunState → Machine → Machine
qemu_system_vmstop_request s m = record m { vmstop_requested = some s }

-- `qemu_shutdown_requested`
unfoldable pub qemu_shutdown_requested : Machine → ℕ × Machine
qemu_shutdown_requested m = (m.shutdown_requested, record m { shutdown_requested = 0 })

-- `qemu_reset_requested` and `qemu_suspend_requested`, for the answer of `replay_checkpoint`.
unfoldable pub qemu_reset_requested : Bool → Machine → ℕ × Machine
qemu_reset_requested checkpoint m =
    if not (m.reset_requested == 0) && checkpoint
    then (m.reset_requested, record m { reset_requested = 0 })
    else (0, m)

unfoldable pub qemu_suspend_requested : Bool → Machine → Bool × Machine
qemu_suspend_requested checkpoint m =
    if m.suspend_requested && checkpoint
    then (true, record m { suspend_requested = false })
    else (false, m)

-- `qemu_powerdown_requested` and `qemu_debug_requested`
unfoldable pub qemu_powerdown_requested : Machine → Bool × Machine
qemu_powerdown_requested m = (m.powerdown_requested, record m { powerdown_requested = false })

unfoldable pub qemu_debug_requested : Machine → Bool × Machine
qemu_debug_requested m = (m.debug_requested, record m { debug_requested = false })

-- `qemu_system_reset_request`
unfoldable pub qemu_system_reset_request : ℕ → Machine → Machine
qemu_system_reset_request reason m =
    if m.no_reboot
    then record m { shutdown_requested = reason }
    else record m { reset_requested = reason }

-- `qemu_system_suspend_request`
unfoldable pub qemu_system_suspend_request : Machine → Machine
unfolding runstate_check
qemu_system_suspend_request m =
    if runstate_check suspended m.current then m else record m { suspend_requested = true }

-- `qemu_system_wakeup_request`, for whether the reason is in `wakeup_reason_mask`.
unfoldable pub qemu_system_wakeup_request : Bool → ℕ → Machine → Option Machine
unfolding runstate_check
qemu_system_wakeup_request enabled reason m =
    if not (runstate_check suspended m.current)
    then some m
    else if not enabled
    then some m
    else elim (runstate_set running m.current) [
      | none ↦ none
      | some s ↦ some (record m { current = s; wakeup_reason = reason })
    ]

-- `qemu_system_killed`: a signal beats `-no-shutdown` (`host_signal` is SHUTDOWN_CAUSE_HOST_SIGNAL).
unfoldable pub qemu_system_killed : ℕ → ℕ → Machine → Machine
qemu_system_killed host_signal signal m = record m {
  shutdown_signal = signal;
  no_shutdown = false;
  shutdown_requested = host_signal;
}

-- `qemu_system_shutdown_request`, `qemu_system_powerdown_request`, `qemu_system_debug_request`
unfoldable pub qemu_system_shutdown_request : ℕ → Machine → Machine
qemu_system_shutdown_request reason m = record m { shutdown_requested = reason }

unfoldable pub qemu_system_powerdown_request : Machine → Machine
qemu_system_powerdown_request m = record m { powerdown_requested = true }

unfoldable pub qemu_system_debug_request : Machine → Machine
qemu_system_debug_request m = record m { debug_requested = true }

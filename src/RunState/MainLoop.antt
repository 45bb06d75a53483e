-- ===== src/RunState/MainLoop.antt =====
-- test_vl.c: `main_loop_should_exit`, one turn of the main loop over the requests.
use encoder_with_web_socket.Prelude.{
  ℕ, ◌≡◌, refl, ◌≢◌, inl, inr, Bool, true, false, not, ◌&&◌, Option, none, some, arith, ◌==◌,
  if◌then◌else◌, Bool-cases,
}
use encoder_with_web_socket.RunState.{
  RunState, runstate_set, runstate_check, debug, inmigrate, prelaunch, running, shutdown, suspended,
}
use encoder_with_web_socket.RunState.Requests.{
  Machine, qemu_vmstop_requested, qemu_shutdown_requested, qemu_reset_requested,
  qemu_suspend_requested, qemu_powerdown_requested, qemu_debug_requested, qemu_system_reset_request,
  qemu_system_killed,
}

-- What the loop calls in other files: the change that a call makes to the machine, `none` where it
-- aborts, and the answers of `replay_checkpoint` and `qtest_driver`.
pub record Host : Type 0 where
  pub vm_stop : RunState → Machine → Option Machine
  pub pause_and_notify_suspend : Machine → Machine
  pub pause_reset_resume : ℕ → Machine → Machine
  pub notify_wakeup : Machine → Machine
  pub notify_powerdown : Machine → Machine
  pub reset_checkpoint : Bool
  pub suspend_checkpoint : Bool
  pub qtest_driver : Bool

pub then_do : Option Machine → (Machine → Option Machine) → Option Machine
then_do none f = none
then_do (some m) f = f m

unfoldable pub set_state : RunState → Machine → Option Machine
set_state s m = elim (runstate_set s m.current) [
  | none ↦ none
  | some t ↦ some (record m { current = t })
]

-- `qemu_kill_report`
unfoldable pub qemu_kill_report : Host → Machine → Machine
qemu_kill_report h m =
    if not h.qtest_driver && not (m.shutdown_signal == 0)
    then record m { shutdown_signal = 0 }
    else m

-- `qemu_system_suspend`
unfoldable pub qemu_system_suspend : Host → Machine → Option Machine
qemu_system_suspend h m = set_state suspended (h.pause_and_notify_suspend m)

-- The requests in the order in which the loop looks at them.
unfoldable pub serve_debug : Host → Machine → Option Machine
unfolding qemu_debug_requested
serve_debug h m = let r = qemu_debug_requested m in if r.0 then h.vm_stop debug r.1 else some r.1

unfoldable pub serve_suspend : Host → Machine → Option Machine
serve_suspend h m =
    let r = qemu_suspend_requested h.suspend_checkpoint m in
    if r.0 then qemu_system_suspend h r.1 else some r.1

-- The reset, after which a machine that neither runs nor waits for a migration is before its launch.
unfoldable pub serve_reset : Host → Machine → Option Machine
serve_reset h m =
    let r = qemu_reset_requested h.reset_checkpoint m in
    if r.0 == 0
    then some r.1
    else (let m' = h.pause_reset_resume r.0 r.1 in
        if not (runstate_check running m'.current) && not (runstate_check inmigrate m'.current)
        then set_state prelaunch m'
        else some m')

unfoldable pub serve_wakeup : Host → Machine → Machine
serve_wakeup h m =
    if m.wakeup_reason == 0
    then m
    else record (h.notify_wakeup (h.pause_reset_resume 0 m)) { wakeup_reason = 0 }

unfoldable pub serve_powerdown : Host → Machine → Machine
serve_powerdown h m =
    let r = qemu_powerdown_requested m in if r.0 then h.notify_powerdown r.1 else r.1

unfoldable pub serve_vmstop : Host → Machine → Option Machine
serve_vmstop h m =
    let r = qemu_vmstop_requested m in elim r.0 [ none ↦ some r.1 | some s ↦ h.vm_stop s r.1 ]

unfoldable pub serve_others : Host → Machine → Option (Bool × Machine)
serve_others h m =
    elim (then_do (serve_reset h m) (λ n. serve_vmstop h (serve_powerdown h (serve_wakeup h n)))) [
      | none ↦ none
      | some n ↦ some (false, n)
    ]

unfoldable pub serve_shutdown : Host → Machine → Option (Bool × Machine)
unfolding qemu_shutdown_requested
serve_shutdown h m =
    let r = qemu_shutdown_requested m in
    if r.0 == 0
    then serve_others h r.1
    else (let m' = qemu_kill_report h r.1 in
        if m'.no_shutdown
        then elim (h.vm_stop shutdown m') [ none ↦ none | some n ↦ serve_others h n ]
        else some (true, m'))

unfoldable pub main_loop_should_exit : Host → Machine → Option (Bool × Machine)
main_loop_should_exit h m = elim (then_do (serve_debug h m) (serve_suspend h)) [
  | none ↦ none
  | some n ↦ serve_shutdown h n
]

exits_lem :
    (h : Host)
    → (m : Machine) → m.shutdown_requested == 0 ≡ false
    → m.no_shutdown ≡ false
    → m.debug_requested ≡ false
    → m.suspend_requested ≡ false
    → main_loop_should_exit h m
      ≡ some
          (true, qemu_kill_report h (record m { debug_requested = false; shutdown_requested = 0 }))
unfolding main_loop_should_exit then_do serve_debug serve_suspend serve_shutdown
    qemu_shutdown_requested qemu_suspend_requested qemu_debug_requested qemu_kill_report
exits_lem h m c n d s = elim (Bool-cases (not h.qtest_driver && not (m.shutdown_signal == 0))) [
  | inl k ↦ rw (d, s, c, k, n) refl
  | inr k ↦ rw (d, s, c, k, n) refl
]

module _ (h : Host) (m : Machine) where
  -- A signal, with its cause, ends the loop at its next turn, under `-no-shutdown` too, where no
  -- debug and no suspend request is pending; the state and the requests other than the shutdown
  -- stay as they are.
  pub killed-exits :
      (cause signal : ℕ)
      → cause ≢ 0
      → m.debug_requested ≡ false
      → m.suspend_requested ≡ false
      → main_loop_should_exit h (qemu_system_killed cause signal m)
        ≡ some (
          true,
          qemu_kill_report h (record m {
            debug_requested = false;
            shutdown_signal = signal;
            no_shutdown = false;
            shutdown_requested = 0;
          }),
        )
  unfolding qemu_system_killed qemu_kill_report
  killed-exits cause signal c d s =
      exits_lem h (qemu_system_killed cause signal m) (ground arith) refl d s

  -- Under `-no-reboot` and without `-no-shutdown`, a reset request with a cause ends the loop at its
  -- next turn, where no debug and no suspend request is pending, and it is not served.
  no_reboot-exits :
      (cause : ℕ)
      → cause ≢ 0
      → m.no_reboot ≡ true
      → m.no_shutdown ≡ false
      → m.debug_requested ≡ false
      → m.suspend_requested ≡ false
      → main_loop_should_exit h (qemu_system_reset_request cause m)
        ≡ some (
          true,
          qemu_kill_report h (record m { debug_requested = false; shutdown_requested = 0 }),
        )
  unfolding qemu_system_reset_request
  no_reboot-exits cause c r n d s =
      let e : qemu_system_reset_request cause m ≡ record m { shutdown_requested = cause } =
        rw (r) refl in
      rw e (exits_lem h (record m { shutdown_requested = cause }) (ground arith) n d s)

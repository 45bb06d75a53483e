-- ===== src/RunState/Tests.antt =====
-- The run state of test_vl.c on concrete states and requests.
use encoder_with_web_socket.Prelude.{◌≡◌, refl, true, false, some, arith}
use encoder_with_web_socket.RunState.{paused, running}
use encoder_with_web_socket.RunState.Requests.{Machine, qemu_system_killed}
use encoder_with_web_socket.RunState.MainLoop.{
  Host, qemu_kill_report, main_loop_should_exit, killed-exits,
}

abbrev quiet : Host
quiet = record {
  vm_stop = λ s m. some (record m { current = s });
  pause_and_notify_suspend = λ m. m;
  pause_reset_resume = λ c m. m;
  notify_wakeup = λ m. m;
  notify_powerdown = λ m. m;
  reset_checkpoint = true;
  suspend_checkpoint = true;
  qtest_driver = false;
}

abbrev machine : Machine
machine = record {
  current = running;
  vmstop_requested = some paused;
  debug_requested = false;
  suspend_requested = false;
  shutdown_requested = 0;
  reset_requested = 0;
  wakeup_reason = 0;
  powerdown_requested = true;
  shutdown_signal = 0;
  no_shutdown = true;
  no_reboot = true;
}

killed-exits_example :
    main_loop_should_exit quiet (qemu_system_killed 3 15 machine)
    ≡ some (
      true,
      qemu_kill_report quiet (record machine {
        debug_requested = false;
        shutdown_signal = 15;
        no_shutdown = false;
        shutdown_requested = 0;
      }),
    )
killed-exits_example = killed-exits quiet machine 3 15 (omega arith) refl refl

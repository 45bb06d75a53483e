-- ===== src/RunState.antt =====
-- test_vl.c, the emulator's main file: the run state of the machine and its transitions.
pub mod Transitions
pub mod Requests
pub mod MainLoop
mod Tests
use encoder_with_web_socket.Prelude.{
  ℕ, zero, suc, ◌≡◌, refl, sym, ap, ◌∙◌, Bool, true, false, ◌&&◌, ◌||◌, Option, none, some, List,
  [], ◌∷◌, ◌++◌, arith, ltb, ◌==◌, if◌then◌else◌, length,
}

-- `RunState`, without RUN_STATE__MAX, which is `none` where the source uses it.
pub data RunState : Type 0 where
  debug : RunState
  inmigrate : RunState
  internal_error : RunState
  io_error : RunState
  paused : RunState
  postmigrate : RunState
  prelaunch : RunState
  finish_migrate : RunState
  restore_vm : RunState
  running : RunState
  save_vm : RunState
  shutdown : RunState
  suspended : RunState
  watchdog : RunState
  guest_panicked : RunState
  colo : RunState

-- The place of a state in the enumeration.
abbrev pub index : RunState → ℕ
index debug = 0
index inmigrate = 1
index internal_error = 2
index io_error = 3
index paused = 4
index postmigrate = 5
index prelaunch = 6
index finish_migrate = 7
index restore_vm = 8
index running = 9
index save_vm = 10
index shutdown = 11
index suspended = 12
index watchdog = 13
index guest_panicked = 14
index colo = 15

-- The state at a place of the enumeration.
abbrev at_index : List RunState → ℕ → RunState
at_index [] n = debug
at_index (s ∷ ss) zero = s
at_index (s ∷ ss) (suc n) = at_index ss n

abbrev of_index : ℕ → RunState
of_index = at_index (
    debug ∷ inmigrate ∷ internal_error ∷ io_error ∷ paused ∷ postmigrate ∷ prelaunch
    ∷ finish_migrate ∷ restore_vm ∷ running ∷ save_vm ∷ shutdown ∷ suspended ∷ watchdog
    ∷ guest_panicked ∷ colo ∷ [])

of_index-index : (a : RunState) → of_index (index a) ≡ a
of_index-index debug = refl
of_index-index inmigrate = refl
of_index-index internal_error = refl
of_index-index io_error = refl
of_index-index paused = refl
of_index-index postmigrate = refl
of_index-index prelaunch = refl
of_index-index finish_migrate = refl
of_index-index restore_vm = refl
of_index-index running = refl
of_index-index save_vm = refl
of_index-index shutdown = refl
of_index-index suspended = refl
of_index-index watchdog = refl
of_index-index guest_panicked = refl
of_index-index colo = refl

pub index-injective : (a b : RunState) → index a ≡ index b → a ≡ b
index-injective a b h = sym (of_index-index a) ∙ ap of_index h ∙ of_index-index b

abbrev pub is_state : RunState → RunState → Bool
is_state a b = index a == index b

pub is_state_refl : (a : RunState) → is_state a a ≡ true
is_state_refl a = ground arith

-- `runstate_transitions_def`, without its end mark.
abbrev pub transitions : List (RunState × RunState)
transitions =
    (debug, running)
    ∷ (debug, finish_migrate)
    ∷ (debug, prelaunch)
    ∷ (inmigrate, internal_error)
    ∷ (inmigrate, io_error)
    ∷ (inmigrate, paused)
    ∷ (inmigrate, running)
    ∷ (inmigrate, shutdown)
    ∷ (inmigrate, suspended)
    ∷ (inmigrate, watchdog)
    ∷ (inmigrate, guest_panicked)
    ∷ (inmigrate, finish_migrate)
    ∷ (inmigrate, prelaunch)
    ∷ (inmigrate, postmigrate)
    ∷ (inmigrate, colo)
    ∷ (internal_error, paused)
    ∷ (internal_error, finish_migrate)
    ∷ (internal_error, prelaunch)
    ∷ (io_error, running)
    ∷ (io_error, finish_migrate)
    ∷ (io_error, prelaunch)
    ∷ (paused, running)
    ∷ (paused, finish_migrate)
    ∷ (paused, postmigrate)
    ∷ (paused, prelaunch)
    ∷ (paused, colo)
    ∷ (postmigrate, running)
    ∷ (postmigrate, finish_migrate)
    ∷ (postmigrate, prelaunch)
    ∷ (prelaunch, running)
    ∷ (prelaunch, finish_migrate)
    ∷ (prelaunch, inmigrate)
    ∷ (finish_migrate, running)
    ∷ (finish_migrate, paused)
    ∷ (finish_migrate, postmigrate)
    ∷ (finish_migrate, prelaunch)
    ∷ (finish_migrate, colo)
    ∷ (restore_vm, running)
    ∷ (restore_vm, prelaunch)
    ∷ (colo, running)
    ∷ (running, debug)
    ∷ (running, internal_error)
    ∷ (running, io_error)
    ∷ (running, paused)
    ∷ (running, finish_migrate)
    ∷ (running, restore_vm)
    ∷ (running, save_vm)
    ∷ (running, shutdown)
    ∷ (running, watchdog)
    ∷ (running, guest_panicked)
    ∷ (running, colo)
    ∷ (save_vm, running)
    ∷ (shutdown, paused)
    ∷ (shutdown, finish_migrate)
    ∷ (shutdown, prelaunch)
    ∷ (debug, suspended)
    ∷ (running, suspended)
    ∷ (suspended, running)
    ∷ (suspended, finish_migrate)
    ∷ (suspended, prelaunch)
    ∷ (suspended, colo)
    ∷ (watchdog, running)
    ∷ (watchdog, finish_migrate)
    ∷ (watchdog, prelaunch)
    ∷ (watchdog, colo)
    ∷ (guest_panicked, running)
    ∷ (guest_panicked, finish_migrate)
    ∷ (guest_panicked, prelaunch)
    ∷ []

-- `runstate_valid_transitions[from][to]`, as `runstate_init` fills it.
abbrev pub marked : List (RunState × RunState) → RunState → RunState → Bool
marked [] from to = false
marked ((a, b) ∷ ts) from to = (is_state a from && is_state b to) || marked ts from to

unfoldable pub valid_transition : RunState → RunState → Bool
valid_transition from to = marked transitions from to

-- `runstate_set` on the current state; `none` is `abort()`.
unfoldable pub runstate_set : RunState → RunState → Option RunState
unfolding valid_transition
runstate_set new current =
    if is_state current new
    then some current
    else if valid_transition current new
    then some new
    else none

-- `runstate_check`, `runstate_is_running` and `runstate_needs_reset` on the current state.
unfoldable pub runstate_check : RunState → RunState → Bool
runstate_check state current = is_state current state

unfoldable pub runstate_is_running : RunState → Bool
unfolding runstate_check
runstate_is_running = runstate_check running

unfoldable pub runstate_needs_reset : RunState → Bool
unfolding runstate_check
runstate_needs_reset current =
    runstate_check internal_error current || runstate_check shutdown current

-- `runstate_store`: the name with its end mark goes into a buffer of `size` bytes, if it fits. The
-- names come from a generated file.
unfoldable pub runstate_store : (RunState → List ℕ) → RunState → ℕ → Option (List ℕ)
runstate_store name current size =
    let str = name current ++ 0 ∷ [] in if ltb size (length str) then none else some str

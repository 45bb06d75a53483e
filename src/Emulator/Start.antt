-- ===== src/Emulator/Start.antt =====
-- The thread of test_collabo.h that looks for the screen and starts the server.
use encoder_with_web_socket.Prelude.{
  ℕ, zero, suc, ◌+◌, ◌<◌, ◌≡◌, refl, ◌⊎◌, inl, inr, Bool, true, false, Option, none, some, List, [],
  ◌∷◌, arith, if◌then◌else◌, Option-cases,
}
use encoder_with_web_socket.Emulator.{Surface, Emulator, Event, server_start, exit}

-- `for(; ;i++)`: the first console from index `i` on, looked for at `fuel` indices.
unfoldable pub find_console : (ℕ → Bool) → ℕ → ℕ → Option ℕ
find_console exists zero i = none
find_console exists (suc fuel) i =
    let rest = find_console exists fuel (i + 1) in if exists i then some i else rest

-- The rest of `collabo_thread_func`, once it has found a console: the sizes of its surface, the
-- fields of `clbCtx` and `clbStart`.
abbrev pub start_server : ℕ → ℕ → Option Surface → Emulator → List Event × Emulator
start_server port agent_port none e = (exit ∷ [], e)
start_server port agent_port (some s) e = (
  server_start port agent_port ∷ [],
  record e { width = s.width; height = s.height; is_audio_enabled = true; is_silent = true },
)

abbrev pub on_console :
    (ℕ → Option Surface) → ℕ → ℕ → Emulator → Option ℕ → Option (List Event × Emulator)
on_console surface port agent_port e none = none
on_console surface port agent_port e (some i) = some (start_server port agent_port (surface i) e)

-- `collabo_thread_func`, with the console of each index, if there is one, and its surface; `none` if
-- the loop has not found a console yet.
unfoldable pub collabo_thread_func :
    (ℕ → Bool) → (ℕ → Option Surface) → ℕ → ℕ → ℕ → Emulator → Option (List Event × Emulator)
collabo_thread_func exists surface fuel port agent_port e =
    on_console surface port agent_port e (find_console exists fuel 0)

find_console-first :
    (exists : ℕ → Bool) (d n i : ℕ)
    → i + d ≡ n
    → exists n ≡ true
    → ((j : ℕ) → j < n → exists j ≡ false)
    → (fuel : ℕ) → d < fuel
    → find_console exists fuel i ≡ some n
unfolding find_console
find_console-first exists d n i e here before zero h = absurd (omega arith)
find_console-first exists zero n i e here before (suc fuel) h =
    let q : i ≡ n = omega arith in rw (q, here) refl
find_console-first exists (suc d) n i e here before (suc fuel) h =
    rw (before i (omega arith))
      (find_console-first exists d n (i + 1) (omega arith) here before fuel (omega arith))

-- If there is a console at all, the search ends with the first one, by as many looks as its index
-- says, and the thread either starts the server once, with the size of that console's surface, or
-- ends the program if it has none.
pub collabo_thread_func-ends :
    (exists : ℕ → Bool) (surface : ℕ → Option Surface) (n fuel port agent_port : ℕ) (e : Emulator)
    → exists n ≡ true
    → ((j : ℕ) → j < n → exists j ≡ false)
    → n < fuel
    → ((collabo_thread_func exists surface fuel port agent_port e ≡ some (exit ∷ [], e))
        × (surface n ≡ none))
      ⊎ ((s : Surface) × (surface n ≡ some s)
          × (e' : Emulator) × (collabo_thread_func exists surface fuel port agent_port e
              ≡ some (server_start port agent_port ∷ [], e'))
          × (e'.width ≡ s.width)
          × (e'.height ≡ s.height)
          × (e'.is_silent ≡ true))
unfolding collabo_thread_func
collabo_thread_func-ends exists surface n fuel port agent_port e here before enough =
    let found = find_console-first exists n n 0 (omega arith) here before fuel enough in
    elim (Option-cases (surface n)) [
      | inl gone ↦ inl (rw (found, gone) refl, gone)
      | inr (s, there) ↦ inr (
        s,
        there,
        record e { width = s.width; height = s.height; is_audio_enabled = true; is_silent = true },
        rw (found, there) refl,
        refl,
        refl,
        refl,
      )
    ]

-- Without a console the search never ends, however long it goes on.
pub find_console-endless :
    (exists : ℕ → Bool) (fuel i : ℕ)
    → ((j : ℕ) → exists j ≡ false)
    → find_console exists fuel i ≡ none
unfolding find_console
find_console-endless exists zero i no_one = refl
find_console-endless exists (suc fuel) i no_one =
    rw (no_one i) (find_console-endless exists fuel (i + 1) no_one)

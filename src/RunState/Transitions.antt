-- ===== src/RunState/Transitions.antt =====
-- test_vl.c: which changes of the run state `runstate_set` lets through.
use encoder_with_web_socket.Prelude.{
  ◌≡◌, refl, subst, ◌≢◌, ◌↔◌, ◌⊎◌, inl, inr, true, false, none, some, arith, Bool-cases,
}
use encoder_with_web_socket.RunState.{
  RunState, index-injective, is_state, is_state_refl, valid_transition, runstate_set, debug,
  inmigrate, internal_error, paused, prelaunch, restore_vm, running, save_vm, shutdown, colo,
}

-- The state behind a change is the new one, and the table has the change or it is none; `runstate_set`
-- aborts exactly where the state is another one and the table has no such change.
runstate_set_cases :
    (current new : RunState)
    → ((runstate_set new current ≡ some new)
        × ((current ≡ new) ⊎ (valid_transition current new ≡ true)))
      ⊎ ((runstate_set new current ≡ none)
          × (current ≢ new)
          × (valid_transition current new ≡ false))
unfolding runstate_set
runstate_set_cases current new = elim (Bool-cases (is_state current new)) [
  | inl same ↦ let e = index-injective current new (ground arith) in inl (rw (same, e) refl, inl e)
  | inr other ↦ elim (Bool-cases (valid_transition current new)) [
    | inl v ↦ inl (rw (other, v) refl, inr v)
    | inr v ↦ inr (
      rw (other, v) refl,
      (λ e. let same = subst (λ x. is_state current x ≡ true) e (is_state_refl current) in cc),
      v,
    )
  ]
]

saved-running :
    (current : RunState)
    → current ≢ save_vm
    → runstate_set save_vm current ≢ none
    → current ≡ running
unfolding runstate_set valid_transition
saved-running running d h = refl
saved-running save_vm d h = absurd (d refl)
saved-running _ d h = absurd (h refl)

restored-running :
    (current : RunState)
    → current ≢ restore_vm
    → runstate_set restore_vm current ≢ none
    → current ≡ running
unfolding runstate_set valid_transition
restored-running running d h = refl
restored-running restore_vm d h = absurd (d refl)
restored-running _ d h = absurd (h refl)

-- A change to the state in which a snapshot is saved, or to the one in which it is loaded, that
-- `runstate_set` does not abort on, comes from a running machine.
save-restore-from-running :
    (current new : RunState)
    → (new ≡ save_vm) ⊎ (new ≡ restore_vm)
    → current ≢ new
    → runstate_set new current ≢ none
    → current ≡ running
save-restore-from-running current new (inl e) d h =
    saved-running current (subst (λ x. current ≢ x) e d)
      (subst (λ x. runstate_set x current ≢ none) e h)
save-restore-from-running current new (inr e) d h =
    restored-running current (subst (λ x. current ≢ x) e d)
      (subst (λ x. runstate_set x current ≢ none) e h)

-- The reset of a machine that neither runs nor waits for a migration aborts exactly while a snapshot
-- is saved and under replication.
reset-abort :
    (s : RunState)
    → s ≢ running
    → s ≢ inmigrate
    → (runstate_set prelaunch s ≡ none) ↔ ((s ≡ save_vm) ⊎ (s ≡ colo))
unfolding runstate_set valid_transition
reset-abort debug a b = (λ h. cc, λ h. ground arith)
reset-abort running a b = absurd (a refl)
reset-abort inmigrate a b = absurd (b refl)
reset-abort save_vm a b = (λ h. inl refl, λ h. refl)
reset-abort colo a b = (λ h. inr refl, λ h. refl)
reset-abort _ a b = (λ h. cc, λ h. ground arith)

-- The states that successful calls of `runstate_set` lead to.
pub data Reach (s : RunState) : RunState → Type 0 where
  here : Reach s s
  next : {t : RunState} (u : RunState) → Reach s t → runstate_set u t ≡ some u → Reach s u

-- From every state a chain of changes that `runstate_set` lets through leads to `running`.
Reach-running : (s : RunState) → Reach s running
unfolding runstate_set valid_transition
Reach-running running = here
Reach-running internal_error = next running (next paused here refl) refl
Reach-running shutdown = next running (next paused here refl) refl
Reach-running inmigrate = next running here refl
Reach-running _ = next running here refl

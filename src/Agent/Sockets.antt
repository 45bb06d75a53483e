-- ===== src/Agent/Sockets.antt =====
-- The sockets of AgentManager.cpp over the turns of its loop, and how the loop is stopped.
use encoder_with_web_socket.Prelude.{
  ℕ, suc, ◌+◌, ◌≤◌, ◌≡◌, refl, ap, true, false, List, [], ◌∷◌, ◌++◌, map, arith, length, take,
  length-take,
}
use encoder_with_web_socket.Agent.{
  AgentManager, is_magic, Attempt, Event, report, turn, Input, is_over, manage, no_socket, refused,
  connected, opened, closed, slept, sent, goes_on, attempt, halt,
}
use encoder_with_web_socket.Agent.Secret.{
  stream, magic, recv_loop-complete, accepted, send_loop-complete,
}

abbrev pub opens : List Event → ℕ
opens [] = 0
opens (opened ∷ es) = suc (opens es)
opens (closed ∷ es) = opens es
opens (slept ∷ es) = opens es
opens (sent bs ∷ es) = opens es

abbrev pub closes : List Event → ℕ
closes [] = 0
closes (opened ∷ es) = closes es
closes (closed ∷ es) = suc (closes es)
closes (slept ∷ es) = closes es
closes (sent bs ∷ es) = closes es

opens-append : (es fs : List Event) → opens (es ++ fs) ≡ opens es + opens fs
opens-append [] fs = omega arith
opens-append (opened ∷ es) fs = omega (arith, opens-append es fs)
opens-append (closed ∷ es) fs = opens-append es fs
opens-append (slept ∷ es) fs = opens-append es fs
opens-append (sent bs ∷ es) fs = opens-append es fs

closes-append : (es fs : List Event) → closes (es ++ fs) ≡ closes es + closes fs
closes-append [] fs = omega arith
closes-append (opened ∷ es) fs = closes-append es fs
closes-append (closed ∷ es) fs = omega (arith, closes-append es fs)
closes-append (slept ∷ es) fs = closes-append es fs
closes-append (sent bs ∷ es) fs = closes-append es fs

-- The peer sends the magic number, and the answer to it can be sent.
abbrev pub Answers : Attempt → Type 0
Answers no_socket = ⊥
Answers refused = ⊥
Answers (connected rs ss a b c d) = (take 4 (stream rs) ≡ magic) × (4 ≤ accepted ss)

turn-open :
    (m : AgentManager) (a : Attempt)
    → Answers a
    → (opens (turn m a).0 ≡ 1) × (closes (turn m a).0 ≡ 0) × ((turn m a).1 ≡ goes_on)
unfolding turn report is_magic
turn-open m no_socket h = absurd h
turn-open m refused h = absurd h
turn-open m (connected rs ss a b c d) (h, k) =
    let l : 4 ≤ length (stream rs) = omega (arith, ap length h, length-take 4 (stream rs)) in
    let e = recv_loop-complete [] rs (omega arith) l in
    let (out, f) = send_loop-complete 0 ss (omega arith) (omega (arith, k)) in
    rw (e, h, f) (refl, refl, refl)

abbrev pub AllAnswer : List Attempt → Type 0
AllAnswer [] = Unit {0}
AllAnswer (a ∷ xs) = Answers a × AllAnswer xs

-- While its peers answer, the thread opens a socket in each turn and closes none.
pub manage-leak :
    (m : AgentManager) (xs : List Attempt)
    → m.stopped ≡ false
    → AllAnswer xs
    → let es = manage m (map attempt xs) in (opens es ≡ length xs) × (closes es ≡ 0)
unfolding manage
manage-leak m [] s h = (refl, refl)
manage-leak m (a ∷ xs) s (h, hs) =
    let o = turn-open m a h in
    let r = manage-leak (record m { stopped = false }) xs refl hs in
    simp (s, o.2, opens-append, closes-append, o.0, o.1, r.0, r.1) (omega arith, refl)

manage-stopped : (m : AgentManager) (is : List Input) → m.stopped ≡ true → manage m is ≡ []
unfolding manage
manage-stopped m [] s = refl
manage-stopped m (halt ∷ is) s = manage-stopped (record m { stopped = true }) is refl
manage-stopped m (attempt a ∷ is) s = rw s refl

-- Once `stop()` has been called, there is no further turn.
manage-halt : (m : AgentManager) (is js : List Input) → manage m (is ++ halt ∷ js) ≡ manage m is
unfolding manage
manage-halt m [] js = manage-stopped (record m { stopped = true }) js refl
manage-halt m (halt ∷ is) js = manage-halt (record m { stopped = true }) is js
manage-halt m (attempt a ∷ is) js =
    rw (manage-halt (record m { stopped = is_over m.stopped (turn m a).1 }) is js) refl

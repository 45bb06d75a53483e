-- ===== src/Agent/Reports.antt =====
-- AgentManager.cpp, once a peer answers as it should: the report comes, whatever came before.
use encoder_with_web_socket.Prelude.{
  le_bytes, ◌≤◌, ◌≡◌, refl, sym, false, List, [], ◌∷◌, ◌++◌, map, append_assoc, length, take,
}
use encoder_with_web_socket.Agent.{
  Bytes, AgentManager, Recv, Send, reply, send_once, Attempt, Event, turn, Input, manage, run,
  manage_impl, connected, opened, closed, slept, sent, goes_on, attempt,
}
use encoder_with_web_socket.Agent.Secret.{stream, magic, output, accepted, turn_report}

output-append : (es fs : List Event) → output (es ++ fs) ≡ output es ++ output fs
output-append [] fs = refl
output-append (sent bs ∷ es) fs =
    rw (output-append es fs, append_assoc bs (output es) (output fs)) refl
output-append (opened ∷ es) fs = output-append es fs
output-append (closed ∷ es) fs = output-append es fs
output-append (slept ∷ es) fs = output-append es fs

-- No attempt ends the thread or waits for ever.
abbrev pub AllGoOn : AgentManager → List Attempt → Type 0
AllGoOn m [] = Unit {0}
AllGoOn m (a ∷ rest) = ((turn m a).1 ≡ goes_on) × AllGoOn m rest

-- What goes out in the attempts.
abbrev pub outputs : AgentManager → List Attempt → Bytes
outputs m [] = []
outputs m (a ∷ rest) = output (turn m a).0 ++ outputs m rest

-- What a peer is to be sent.
abbrev pub full_report : AgentManager → Bytes
full_report m =
    reply
    ++ (le_bytes 4 (length m.meet_seq)
        ++ (m.meet_seq ++ (le_bytes 4 (length m.password) ++ m.password)))

-- The object once its thread runs.
abbrev pub running : AgentManager → AgentManager
running m = record m { stopped = false }

manage-goes_on :
    (m : AgentManager) (a : Attempt) (is : List Input)
    → (turn (running m) a).1 ≡ goes_on
    → output (manage (running m) (attempt a ∷ is))
      ≡ output (turn (running m) a).0 ++ output (manage (running m) is)
unfolding manage
manage-goes_on m a is on = rw on (output-append (turn (running m) a).0 (manage (running m) is))

manage-outputs :
    (m : AgentManager) (before : List Attempt) (is : List Input)
    → AllGoOn (running m) before
    → output (manage (running m) (map attempt before ++ is))
      ≡ outputs (running m) before ++ output (manage (running m) is)
manage-outputs m [] is on = refl
manage-outputs m (a ∷ before) is on =
    rw (manage-goes_on m a (map attempt before ++ is) on.0, manage-outputs m before is on.1)
      (sym (
        append_assoc (output (turn (running m) a).0) (outputs (running m) before)
          (output (manage (running m) is))))

-- Once `run` has been called, a peer that sends the magic number is sent the whole report, however
-- many attempts have failed before it, if none of them has ended the thread or waits for ever, the
-- system takes what is sent, and `stop()` has not been called; then the loop goes on.
pub manage-reports :
    (m : AgentManager) (seq password : Bytes) (before : List Attempt) (rs : List Recv)
    (ss : List Send) (a b c d : Send) (is : List Input)
    → AllGoOn (running (run m seq password)) before
    → take 4 (stream rs) ≡ magic
    → 4 ≤ accepted ss
    → send_once a (le_bytes 4 (length seq)) ≡ le_bytes 4 (length seq)
    → send_once b seq ≡ seq
    → send_once c (le_bytes 4 (length password)) ≡ le_bytes 4 (length password)
    → send_once d password ≡ password
    → let n = running (run m seq password) in
      output (
        manage_impl
          (run m seq password)
          (map attempt before ++ attempt (connected rs ss a b c d) ∷ is))
      ≡ outputs n before ++ (full_report n ++ output (manage n is))
unfolding manage_impl run
manage-reports m seq password before rs ss a b c d is on h k ha hb hc hd =
    let peer = connected rs ss a b c d in
    let r = run m seq password in
    let (whole, next) = turn_report (running r) rs ss a b c d h k ha hb hc hd in
    rw (manage-outputs r before (attempt peer ∷ is) on, manage-goes_on r peer is next, whole) refl

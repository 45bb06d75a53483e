-- ===== src/Agent.antt =====
-- AgentManager.hpp and AgentManager.cpp: the thread that reports the meeting to an agent program.
pub mod Secret
pub mod Sockets
pub mod Reports
mod Tests
use encoder_with_web_socket.Prelude.{
  le_bytes, slice, ℕ, ◌+◌, ◌-◌, min, Bool, true, false, ◌&&◌, List, [], ◌∷◌, ◌++◌, leb, ◌==◌,
  if◌then◌else◌, length, take,
}

abbrev pub Bytes : Type 0
Bytes = List ℕ

-- `agentPort` is left out, since only `connect` reads it.
pub record AgentManager : Type 0 where
  pub stopped : Bool
  pub meet_seq : Bytes
  pub password : Bytes

-- An answer of `recv`: below 0, as at the timeout of three seconds; 0, where the peer has closed; or
-- bytes, of which `recv` takes no more than it is asked for.
pub data Recv : Type 0 where
  recv_error : Recv
  recv_zero : Recv
  received : ℕ → Bytes → Recv

-- An answer of `send`: below 0, 0, or the number of bytes taken less one.
pub data Send : Type 0 where
  send_error : Send
  send_zero : Send
  taken : ℕ → Send

-- How a loop over a socket stands: it has left by its condition or by its `break`, or the answers
-- so far leave it waiting.
pub data Progress : Type 0 where
  complete : Bytes → Progress
  timeout : Bytes → Progress
  waiting : Bytes → Progress

-- `while(recved < 4)`, with the bytes that `recvCheck` holds so far.
unfoldable pub recv_loop : Bytes → List Recv → Progress
recv_loop check [] = if leb 4 (length check) then complete check else waiting check
recv_loop check (recv_error ∷ rs) =
    let rest = recv_loop check rs in if leb 4 (length check) then complete check else rest
recv_loop check (recv_zero ∷ rs) = if leb 4 (length check) then complete check else timeout check
recv_loop check (received b bs ∷ rs) =
    let rest = recv_loop (check ++ take (4 - length check) (b ∷ bs)) rs in
    if leb 4 (length check) then complete check else rest

-- `sentData`
abbrev pub reply : Bytes
reply = 0x78 ∷ 0x56 ∷ 0x34 ∷ 0x12 ∷ []

abbrev pub prepend : Bytes → Progress → Progress
prepend bs (complete out) = complete (bs ++ out)
prepend bs (timeout out) = timeout (bs ++ out)
prepend bs (waiting out) = waiting (bs ++ out)

-- `while(sent < 4)`, with `n` bytes sent so far: the bytes that go out from then on.
unfoldable pub send_loop : ℕ → List Send → Progress
send_loop n [] = if leb 4 n then complete [] else waiting []
send_loop n (send_error ∷ ss) = let rest = send_loop n ss in if leb 4 n then complete [] else rest
send_loop n (send_zero ∷ ss) = if leb 4 n then complete [] else timeout []
send_loop n (taken k ∷ ss) =
    let m = min (k + 1) (4 - n) in
    let rest = prepend (slice reply n m) (send_loop (n + m) ss) in
    if leb 4 n then complete [] else rest

-- `recvCheck[0] == 0x12 && … && recvCheck[3] == 0x78`
unfoldable pub is_magic : Bytes → Bool
is_magic (a ∷ b ∷ c ∷ d ∷ rest) = a == 0x12 && b == 0x34 && c == 0x56 && d == 0x78
is_magic _ = false

-- A `send` outside the loop, whose answer is not looked at.
abbrev pub send_once : Send → Bytes → Bytes
send_once send_error bs = []
send_once send_zero bs = []
send_once (taken n) bs = take (n + 1) bs

-- The answers of the system to one turn of `while(!stopped)`. The last four are those of the
-- `send`s behind the dialogue.
pub data Attempt : Type 0 where
  no_socket : Attempt
  refused : Attempt
  connected : List Recv → List Send → Send → Send → Send → Send → Attempt

pub data Event : Type 0 where
  opened : Event
  closed : Event
  slept : Event
  sent : Bytes → Event

-- A turn goes on to the next one, ends the thread, or waits for ever in one of its loops.
pub data Exit : Type 0 where
  goes_on : Exit
  returns : Exit
  hangs : Exit

-- The four `send`s of the length and the bytes of `meetSeq` and of `agentPassword`.
unfoldable pub report : AgentManager → Send → Send → Send → Send → List Event
report m a b c d =
    sent (send_once a (le_bytes 4 (length m.meet_seq)))
    ∷ sent (send_once b m.meet_seq)
    ∷ sent (send_once c (le_bytes 4 (length m.password)))
    ∷ sent (send_once d m.password)
    ∷ []

abbrev pub after_reply : Progress → List Event → List Event × Exit
after_reply (waiting out) report = (sent out ∷ [], hangs)
after_reply (timeout out) report = (sent out ∷ closed ∷ [], goes_on)
after_reply (complete out) report = (sent out ∷ report, goes_on)

abbrev pub after_check : Progress → List Event × Exit → List Event × Exit
after_check (waiting check) answer = ([], hangs)
after_check (timeout check) answer = (closed ∷ [], goes_on)
after_check (complete check) answer = if is_magic check then answer else (closed ∷ [], goes_on)

-- One turn of `while(!stopped)` in `manageImpl`. Behind the report the socket is left open.
unfoldable pub turn : AgentManager → Attempt → List Event × Exit
unfolding is_magic
turn m no_socket = ([], returns)
turn m refused = (opened ∷ closed ∷ slept ∷ [], goes_on)
turn m (connected rs ss a b c d) =
    let r = after_check (recv_loop [] rs) (after_reply (send_loop 0 ss) (report m a b c d)) in
    (opened ∷ r.0, r.1)

-- `stop()`, and all that `~AgentManager()` does.
abbrev pub stop : AgentManager → AgentManager
stop m = record m { stopped = true }

-- What happens in turn: a turn of the loop, or `stop()` on another thread.
pub data Input : Type 0 where
  attempt : Attempt → Input
  halt : Input

abbrev pub is_over : Bool → Exit → Bool
is_over stopped goes_on = stopped
is_over stopped returns = true
is_over stopped hangs = true

-- The loop of `manageImpl`, once it has set `stopped` to false.
unfoldable pub manage : AgentManager → List Input → List Event
manage m [] = []
manage m (halt ∷ is) = manage (stop m) is
manage m (attempt a ∷ is) =
    let r = turn m a in
    let rest = manage (record m { stopped = is_over m.stopped r.1 }) is in
    if m.stopped then [] else r.0 ++ rest

-- `run`: the fields are set, and the thread that runs `manageImpl` is made.
unfoldable pub run : AgentManager → Bytes → Bytes → AgentManager
run m seq password = record m { meet_seq = seq; password = password }

-- `manageImpl`
unfoldable pub manage_impl : AgentManager → List Input → List Event
manage_impl m is = manage (record m { stopped = false }) is

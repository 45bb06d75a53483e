-- ===== src/Collabo/Server.antt =====
-- WebSocketServer.cpp, and how `clbStart` of Collabo.cpp uses it; `clb_stop` stands in Emulator.
use encoder_with_web_socket.Prelude.{
  ℕ, ◌≡◌, refl, inl, inr, Bool, true, false, Option, none, some, List, [], ◌∷◌, ◌++◌, arith,
  if◌then◌else◌, Bool-cases,
}
use encoder_with_web_socket.Queue.{Outcome, map_outcome, done, fault}
use encoder_with_web_socket.Encoder.Codec.{Bytes}

-- The fields of `class WebSocketServer`: whether `group` points to a group, whether the group has its
-- three handlers, and the port on which the hub listens for it.
pub record WebSocketServer : Type 0 where
  pub group : Bool
  pub has_handlers : Bool
  pub port : Option ℕ

-- The calls of the hub, of the group and of the agent's manager.
pub data Call : Type 0 where
  listens : ℕ → Bool → Call
  agent_runs : ℕ → Call
  hub_runs : Call
  closes : Call
  broadcasts : Bytes → Call

-- `WebSocketServer()`
abbrev pub new_server : WebSocketServer
new_server = record { group = true; has_handlers = false; port = none }

-- What a method does with the group: it is at fault once the group has been deleted.
abbrev pub on_group {ℓ} : {A : Type ℓ} → WebSocketServer → A → Outcome A
on_group s a = if s.group then done a else fault

-- `initialize`, for what `listen` answers to the port and to whether it is for SSL: the handlers are
-- put on the group first.
unfoldable pub initialize_server :
    (ℕ → Bool → Bool) → ℕ → Bool → WebSocketServer → Outcome (Bool × List Call × WebSocketServer)
initialize_server listen port ssl s =
    let ok = listen port ssl in
    on_group s (
      ok,
      listens port ssl ∷ [],
      record s { has_handlers = true; port = (if ok then some port else s.port) },
    )

-- `stop`: `group->close(); delete group;`
unfoldable pub stop_server : WebSocketServer → Outcome (List Call × WebSocketServer)
stop_server s = on_group s (closes ∷ [], record s { group = false })

-- `sendAll`
unfoldable pub send_to_all : Bytes → WebSocketServer → Outcome (List Call × WebSocketServer)
send_to_all m s = on_group s (broadcasts m ∷ [], s)

abbrev pub after_initialize : ℕ → Bool × List Call × WebSocketServer → List Call × WebSocketServer
after_initialize agent_port (true, calls, s) = (calls ++ agent_runs agent_port ∷ hub_runs ∷ [], s)
after_initialize agent_port (false, calls, s) = (calls, s)

-- `clbStart`, as it is compiled with `DEBUG`, up to the run of the hub.
unfoldable pub clb_start :
    (ℕ → Bool → Bool) → ℕ → ℕ → WebSocketServer → Outcome (List Call × WebSocketServer)
clb_start listen port agent_port s =
    map_outcome (after_initialize agent_port) (initialize_server listen port false s)

-- If the port can be had, the hub runs behind the agent's manager, with the handlers on the group; if
-- not, neither is started.
clb_start-runs :
    (listen : ℕ → Bool → Bool) (port agent_port : ℕ)
    → clb_start listen port agent_port new_server
      ≡ done (
        listens port false
            ∷ (if listen port false then agent_runs agent_port ∷ hub_runs ∷ [] else []),
        record {
          group = true;
          has_handlers = true;
          port = (if listen port false then some port else none);
        },
      )
unfolding clb_start initialize_server
clb_start-runs listen port agent_port = elim (Bool-cases (listen port false)) [
  | inl ok ↦ simp ok refl
  | inr bad ↦ simp bad refl
]

-- A server that has been stopped cannot be used, nor stopped, nor started again.
stop_server-faults :
    (s s' : WebSocketServer) (calls : List Call) (m : Bytes) (listen : ℕ → Bool → Bool)
    (port agent_port : ℕ)
    → stop_server s ≡ done (calls, s')
    → (stop_server s' ≡ fault)
      × (send_to_all m s' ≡ fault)
      × (clb_start listen port agent_port s' ≡ fault)
unfolding stop_server send_to_all clb_start initialize_server
stop_server-faults s s' calls m listen port agent_port h =
    let gone : s'.group ≡ false = ground arith in simp gone (refl, refl, refl)

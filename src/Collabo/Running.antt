-- ===== src/Collabo/Running.antt =====
-- When the handlers of Collabo.cpp make the host stream.
use mathlib.Core.Option
use encoder_with_web_socket.Prelude.{
  ℕ, ◌≡◌, refl, sym, ◌∙◌, subst, inl, inr, true, false, not, ◌&&◌, none, some, List, [], ◌∷◌, ◌++◌,
  arith, ◌==◌, Bool-cases, Option-cases, length,
}
use encoder_with_web_socket.Collabo.Clients.{
  Client, new_client, find_ws, find_mcode, insert, erase_ws,
}
use encoder_with_web_socket.Collabo.Session.{
  Session, Event, Message, IsSuited, Result, on_open, on_close, suited, dispatch, on_msg, mouse,
  keyboard, authority, chief, setting, set_mode, unknown,
}
use encoder_with_web_socket.Collabo.Wire.{has_role}
use encoder_with_web_socket.Collabo.Streaming.{
  streaming, has_clients, streaming-append, insert-has_clients, found-has_clients, Stays,
  turn_authority-Stays, hand_over-Stays, admit-Stays, change_mode-Stays,
}

-- What reaches the handlers: a client connects, a message comes at a time on a socket, a socket closes.
pub data Arrival : Type 0 where
  connects : ℕ → Arrival
  says : ℕ → ℕ → Message → Arrival
  goes : ℕ → Arrival

abbrev pub then_more : Result → (Session → Result) → Result
then_more none next = none
then_more (some (es, s)) next = Option.map (λ r. (es ++ r.0, r.1)) (next s)

-- A handler that runs to its end leaves the host streaming exactly if there are clients, if that was so
-- before.
abbrev Follows : Session → Result → Type 0
Follows s none = Unit {0}
Follows s (some (es, s')) = streaming (has_clients s.clients) es ≡ has_clients s'.clients

has_clients-length : (cs : List Client) → (length cs == 0) ≡ not (has_clients cs)
has_clients-length [] = refl
has_clients-length (c ∷ cs) = ground arith

has_clients-none : (cs : List Client) → has_clients cs ≡ false → cs ≡ []
has_clients-none [] h = refl
has_clients-none (c ∷ cs) h = cc h

open-empty : (ws : ℕ) (s : Session) → s.clients ≡ [] → Follows s (some (on_open ws s))
unfolding on_open insert find_mcode
open-empty ws s e = simp e refl

on_open-Follows : (ws : ℕ) (s : Session) → Follows s (some (on_open ws s))
unfolding on_open
on_open-Follows ws s =
    let k = insert-has_clients (new_client ws) s.clients in
    elim (Bool-cases (has_clients s.clients)) [
      | inl some_left ↦ elim (Bool-cases (length (insert (new_client ws) s.clients) == 1)) [
        | inl one ↦ simp (one, some_left, k) refl
        | inr many ↦ simp (many, some_left, k) refl
      ]
      | inr no_one ↦ open-empty ws s (has_clients-none s.clients no_one)
    ]

on_close-Follows : (ws : ℕ) (s : Session) → Follows s (on_close ws s)
unfolding on_close
on_close-Follows ws s = elim (Option-cases (find_ws ws s.clients)) [
  | inl e ↦ rw (on_close, e) (record {})
  | inr (c, e) ↦
      let k = found-has_clients ws c s.clients e in
      let l = has_clients-length (erase_ws ws s.clients) in
      elim (Bool-cases (has_clients (erase_ws ws s.clients))) [
        | inl more ↦ rw (on_close, e) (simp (k, l, more) refl)
        | inr last ↦ rw (on_close, e) (simp (k, l, last) refl)
      ]
]

module _ (is_suited : IsSuited) where
  dispatch-Stays :
      (now : ℕ) (c : Client) (m : Message) (s : Session)
      → has_clients s.clients ≡ true
      → Stays (dispatch is_suited now c m s)
  unfolding dispatch
  dispatch-Stays now c (mouse f x y) s h = ground (arith, h)
  dispatch-Stays now c (keyboard f k) s h = ground (arith, h)
  dispatch-Stays now c (authority d) s h = elim (Bool-cases c.chief) [
    | inl k ↦ rw k (turn_authority-Stays d s h)
    | inr k ↦ rw k (refl, h)
  ]
  dispatch-Stays now c (chief d) s h = elim (Bool-cases c.chief) [
    | inl k ↦ simp k (hand_over-Stays c d s h)
    | inr k ↦ rw k (refl, h)
  ]
  dispatch-Stays now c (setting a b d n) s h = elim (Option-cases (is_suited a b)) [
    | inl e ↦ rw (dispatch, e) (refl, h)
    | inr (r, e) ↦ rw (dispatch, e) (admit-Stays now (suited c a b d n r) s)
  ]
  dispatch-Stays now c (set_mode m) s h = elim (Bool-cases (has_role c && c.chief)) [
    | inl k ↦ simp k (change_mode-Stays m s h)
    | inr k ↦ simp k (refl, h)
  ]
  dispatch-Stays now c unknown s h = (refl, h)

  Stays-Follows : (s : Session) (r : Result) → has_clients s.clients ≡ true → Stays r → Follows s r
  Stays-Follows s none h k = record {}
  Stays-Follows s (some (es, s')) h k = rw h (k.0 ∙ sym k.1)

  on_msg-Follows :
      (now ws : ℕ) (m : Message) (s : Session) → Follows s (on_msg is_suited now ws m s)
  unfolding on_msg
  on_msg-Follows now ws m s = elim (Option-cases (find_ws ws s.clients)) [
    | inl e ↦ rw (on_msg, e) (record {})
    | inr (c, e) ↦
        let h = found-has_clients ws c s.clients e in
        rw (on_msg, e)
          (Stays-Follows s (dispatch is_suited now c m s) h (dispatch-Stays now c m s h))
  ]

  -- The handler of an arrival.
  abbrev pub handle : Arrival → Session → Result
  handle (connects ws) s = some (on_open ws s)
  handle (says now ws m) s = on_msg is_suited now ws m s
  handle (goes ws) s = on_close ws s

  -- The handlers run one behind the other, under the lock of the file.
  abbrev pub serve : List Arrival → Session → Result
  serve [] s = some ([], s)
  serve (a ∷ rest) s = then_more (handle a s) (λ t. serve rest t)

  handle-Follows : (a : Arrival) (s : Session) → Follows s (handle a s)
  handle-Follows (connects ws) s = on_open-Follows ws s
  handle-Follows (says now ws m) s = on_msg-Follows now ws m s
  handle-Follows (goes ws) s = on_close-Follows ws s

  then_more-Follows :
      (s : Session) (r : Result) (next : Session → Result)
      → Follows s r
      → ((t : Session) → Follows t (next t))
      → Follows s (then_more r next)
  then_more-Follows s none next h k = record {}
  then_more-Follows s (some (es, t)) next h k = more (next t) (k t)
    where
      more : (n : Result) → Follows t n → Follows s (Option.map (λ r. (es ++ r.0, r.1)) n)
      more none q = record {}
      more (some (fs, u)) q = rw (streaming-append, h) q

  serve-Follows : (arrivals : List Arrival) (s : Session) → Follows s (serve arrivals s)
  serve-Follows [] s = refl
  serve-Follows (a ∷ rest) s =
      then_more-Follows s (handle a s) (λ t. serve rest t) (handle-Follows a s)
        (λ t. serve-Follows rest t)

  -- Whatever arrives at the server, in whatever order, if no handler reads through the end of an index,
  -- and the host streams exactly if there are clients at the beginning, then it does so at the end.
  pub serve-streaming :
      (arrivals : List Arrival) (s s' : Session) (es : List Event)
      → serve arrivals s ≡ some (es, s')
      → streaming (has_clients s.clients) es ≡ has_clients s'.clients
  serve-streaming arrivals s s' es h = subst (Follows s) h (serve-Follows arrivals s)

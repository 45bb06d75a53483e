-- ===== src/Collabo/Kept.antt =====
-- What the handlers of Collabo.cpp leave alone, if the operations of the container do.
use encoder_with_web_socket.Prelude.{
  ℕ, ◌≡◌, refl, inl, inr, true, false, not, ◌&&◌, Option, none, some, List, arith, Bool-cases,
  Option-cases,
}
use encoder_with_web_socket.Collabo.Clients.{
  Client, find_ws, find_mcode, erase_ws, modify_mcode, replace_ws, change_auth, change_chief,
}
use encoder_with_web_socket.Collabo.Session.{
  Session, Event, Message, IsSuited, on_close, turn_authority, hand_over, admit, suited,
  change_mode, dispatch, on_msg, mouse, keyboard, authority, chief, setting, set_mode, unknown,
}
use encoder_with_web_socket.Collabo.Wire.{has_role}
use Prim.Native.String.{String}

-- A predicate on the member list that the operations of the container keep; a change of a member in
-- its place leaves its socket and its `mcode` as they are.
pub record IsKept (P : List Client → Type 0) : Type 0 where
  pub erases : (ws : ℕ) (cs : List Client) → P cs → P (erase_ws ws cs)
  pub replaces : (c : Client) (cs : List Client) → P cs → P (replace_ws c cs)
  pub modifies :
      (f : Client → Client)
      → ((k : Client) → (f k).mcode ≡ k.mcode)
      → ((k : Client) → (f k).ws ≡ k.ws)
      → (d : String) (cs : List Client) → P cs
      → P (modify_mcode d f cs)

-- What a handler leaves, if it runs to its end, is as the predicate says.
abbrev pub Leaves : (List Client → Type 0) → Option (List Event × Session) → Type 0
Leaves P none = Unit {0}
Leaves P (some (es, s)) = P s.clients

module _ (P : List Client → Type 0) (kept : IsKept P) where
  turn_authority-Leaves : (d : String) (s : Session) → P s.clients → Leaves P (turn_authority d s)
  unfolding turn_authority
  turn_authority-Leaves d s u = elim (Option-cases (find_mcode d s.clients)) [
    | inl e ↦ rw (turn_authority, e) (record {})
    | inr (k, e) ↦
        rw (turn_authority, e)
          (kept.modifies (change_auth (not k.authority)) (λ k. refl) (λ k. refl) d s.clients u)
  ]

  hand_over-Leaves :
      (c : Client) (d : String) (s : Session) → P s.clients → Leaves P (hand_over c d s)
  unfolding hand_over
  hand_over-Leaves c d s u = elim (Option-cases (find_mcode d s.clients)) [
    | inl e ↦ rw (hand_over, e) (record {})
    | inr (k, e) ↦
        let v = kept.modifies (change_chief false) (λ k. refl) (λ k. refl) c.mcode s.clients u in
        rw (hand_over, e)
          (kept.modifies (λ k. change_auth true (change_chief true k)) (λ k. refl) (λ k. refl) d _
            v)
  ]

  admit-Kept : (now : ℕ) (c : Client) (s : Session) → P s.clients → P (admit now c s).1.clients
  unfolding admit
  admit-Kept now c s u = kept.replaces c s.clients u

  clients-change_mode : (m : String) (s : Session) → (change_mode m s).1.clients ≡ s.clients
  unfolding change_mode
  clients-change_mode m s = ground arith

  pub on_close-Leaves : (ws : ℕ) (s : Session) → P s.clients → Leaves P (on_close ws s)
  unfolding on_close
  on_close-Leaves ws s u = elim (Option-cases (find_ws ws s.clients)) [
    | inl e ↦ rw (on_close, e) (record {})
    | inr (k, e) ↦ rw (on_close, e) (kept.erases ws s.clients u)
  ]

  module _ (is_suited : IsSuited) where
    dispatch-Leaves :
        (now : ℕ) (c : Client) (m : Message) (s : Session)
        → P s.clients
        → Leaves P (dispatch is_suited now c m s)
    unfolding dispatch
    dispatch-Leaves now c (mouse f x y) s u = u
    dispatch-Leaves now c (keyboard f k) s u = u
    dispatch-Leaves now c (authority d) s u = elim (Bool-cases c.chief) [
      | inl k ↦ rw k (turn_authority-Leaves d s u)
      | inr k ↦ rw k u
    ]
    dispatch-Leaves now c (chief d) s u = elim (Bool-cases c.chief) [
      | inl k ↦ simp k (hand_over-Leaves c d s u)
      | inr k ↦ rw k u
    ]
    dispatch-Leaves now c (setting a b d n) s u = elim (Option-cases (is_suited a b)) [
      | inl e ↦ rw (dispatch, e) u
      | inr (r, e) ↦ rw (dispatch, e) (admit-Kept now (suited c a b d n r) s u)
    ]
    dispatch-Leaves now c (set_mode m) s u = elim (Bool-cases (has_role c && c.chief)) [
      | inl k ↦ simp (k, clients-change_mode m s) u
      | inr k ↦ simp k u
    ]
    dispatch-Leaves now c unknown s u = u

    pub on_msg-Leaves :
        (now ws : ℕ) (m : Message) (s : Session)
        → P s.clients
        → Leaves P (on_msg is_suited now ws m s)
    unfolding on_msg
    on_msg-Leaves now ws m s u = elim (Option-cases (find_ws ws s.clients)) [
      | inl e ↦ rw (on_msg, e) (record {})
      | inr (c, e) ↦ rw (on_msg, e) (dispatch-Leaves now c m s u)
    ]

-- ===== src/Collabo/Unique.antt =====
-- Whole sessions of Collabo.cpp: the events of the server in turn, and the member list they lead to.
use encoder_with_web_socket.Prelude.{
  ℕ, ◌≡◌, refl, subst, inl, inr, none, some, List, [], ◌∷◌, arith, ◌==◌, Bool-cases, Option-cases,
}
use encoder_with_web_socket.Collabo.Clients.{
  Client, new_client, find_mcode, insert, erase_ws, modify_mcode, replace_ws,
}
use encoder_with_web_socket.Collabo.Session.{
  Session, Event, Message, IsSuited, on_open, on_close, on_msg,
}
use encoder_with_web_socket.Collabo.Kept.{IsKept, Leaves, on_msg-Leaves, on_close-Leaves}
use Prim.Native.String.{String}
use text.Mathlib.Text.{◌==◌ as str_eq}

-- No two clients of the list have the same `mcode`.
abbrev pub Unique : List Client → Type 0
Unique [] = Unit {0}
Unique (c ∷ cs) = (find_mcode c.mcode cs ≡ none) × Unique cs

insert-Unique : (c : Client) (cs : List Client) → Unique cs → Unique (insert c cs)
unfolding insert
insert-Unique c cs u = elim (Option-cases (find_mcode c.mcode cs)) [
  | inl e ↦ rw (insert, e, Unique) (e, u)
  | inr (d, e) ↦ rw (insert, e) u
]

erase-find :
    (ws : ℕ) (m : String) (cs : List Client)
    → find_mcode m cs ≡ none
    → find_mcode m (erase_ws ws cs) ≡ none
unfolding erase_ws find_mcode
erase-find ws m [] h = refl
erase-find ws m (c ∷ cs) h = elim (Bool-cases (str_eq c.mcode m)) [
  | inl k ↦ cc (rw k at h)
  | inr k ↦
      let h' = rw k at h in
      elim (Bool-cases (c.ws == ws)) [
        | inl w ↦ rw w h'
        | inr w ↦ rw (w, find_mcode, k) (erase-find ws m cs h')
      ]
]

erase-Unique : (ws : ℕ) (cs : List Client) → Unique cs → Unique (erase_ws ws cs)
unfolding erase_ws
erase-Unique ws [] u = u
erase-Unique ws (c ∷ cs) (h, u) = elim (Bool-cases (c.ws == ws)) [
  | inl w ↦ rw w u
  | inr w ↦ rw w (erase-find ws c.mcode cs h, erase-Unique ws cs u)
]

module _ (f : Client → Client) (keeps : (k : Client) → (f k).mcode ≡ k.mcode) where
  modify-find :
      (d m : String) (cs : List Client)
      → find_mcode m cs ≡ none
      → find_mcode m (modify_mcode d f cs) ≡ none
  unfolding modify_mcode find_mcode
  modify-find d m [] h = refl
  modify-find d m (c ∷ cs) h = elim (Bool-cases (str_eq c.mcode m)) [
    | inl k ↦ cc (rw k at h)
    | inr k ↦
        let h' = rw k at h in
        elim (Bool-cases (str_eq c.mcode d)) [
          | inl w ↦ rw (w, find_mcode, keeps c, k) h'
          | inr w ↦ rw (w, find_mcode, k) (modify-find d m cs h')
        ]
  ]

  modify-Unique : (d : String) (cs : List Client) → Unique cs → Unique (modify_mcode d f cs)
  unfolding modify_mcode
  modify-Unique d [] u = u
  modify-Unique d (c ∷ cs) (h, u) = elim (Bool-cases (str_eq c.mcode d)) [
    | inl w ↦ rw (w, Unique, keeps c) (h, u)
    | inr w ↦ rw w (modify-find d c.mcode cs h, modify-Unique d cs u)
  ]

replace-Unique : (c : Client) (cs : List Client) → Unique cs → Unique (replace_ws c cs)
unfolding replace_ws
replace-Unique c cs u = insert-Unique c (erase_ws c.ws cs) (erase-Unique c.ws cs u)

Unique-IsKept : IsKept Unique
Unique-IsKept = record {
  erases = erase-Unique;
  replaces = replace-Unique;
  modifies = λ f keeps same. modify-Unique f keeps;
}

pub clients-on_open :
    (ws : ℕ) (s : Session) → (on_open ws s).1.clients ≡ insert (new_client ws) s.clients
unfolding on_open
clients-on_open ws s = ground arith

on_open-Unique : (ws : ℕ) (s : Session) → Unique s.clients → Unique (on_open ws s).1.clients
on_open-Unique ws s u = rw (clients-on_open ws s) (insert-Unique (new_client ws) s.clients u)

module _ (is_suited : IsSuited) where
  -- The sessions that the events of the server lead to from `s`, handlers that run to their end.
  data Reach (s : Session) : Session → Type 0 where
    begin : Reach s s
    opened : {t : Session} (ws : ℕ) → Reach s t → Reach s (on_open ws t).1
    told :
        {t t' : Session} {es : List Event} (now ws : ℕ) (m : Message)
        → Reach s t
        → on_msg is_suited now ws m t ≡ some (es, t')
        → Reach s t'
    closed :
        {t t' : Session} {es : List Event} (ws : ℕ)
        → Reach s t
        → on_close ws t ≡ some (es, t')
        → Reach s t'

  -- Whatever clients connect, send and leave, no two clients of the member list ever have the same
  -- `mcode`, if that is so at the beginning.
  Reach-Unique : {s t : Session} → Unique s.clients → Reach s t → Unique t.clients
  Reach-Unique u begin = u
  Reach-Unique u (opened ws r) = on_open-Unique ws _ (Reach-Unique u r)
  Reach-Unique u (told now ws m r e) =
      subst (Leaves Unique) e
        (on_msg-Leaves Unique Unique-IsKept is_suited now ws m _ (Reach-Unique u r))
  Reach-Unique u (closed ws r e) =
      subst (Leaves Unique) e (on_close-Leaves Unique Unique-IsKept ws _ (Reach-Unique u r))

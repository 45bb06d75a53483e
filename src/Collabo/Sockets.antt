-- ===== src/Collabo/Sockets.antt =====
-- The sockets of the member list of Collabo.cpp over whole sessions.
use encoder_with_web_socket.Prelude.{
  ℕ, ◌≡◌, refl, subst, inl, inr, none, some, List, [], ◌∷◌, ◌==◌, Bool-cases, Option-cases,
}
use encoder_with_web_socket.Collabo.Clients.{
  Client, new_client, find_ws, find_mcode, insert, erase_ws, modify_mcode, replace_ws,
}
use encoder_with_web_socket.Collabo.Session.{
  Session, Event, Message, IsSuited, on_open, on_close, on_msg,
}
use encoder_with_web_socket.Collabo.Kept.{IsKept, Leaves, on_msg-Leaves, on_close-Leaves}
use encoder_with_web_socket.Collabo.Unique.{clients-on_open}
use encoder_with_web_socket.Collabo.Inbox.{UniqueSockets, inbox, share, wire, inbox-deliver}
use encoder_with_web_socket.Collabo.Images.{deliver}
use encoder_with_web_socket.Jpeg.Loop.{Event as JpegEvent}
use encoder_with_web_socket.Collabo.Directory.{find-erase_self, erase-UniqueSockets}
use Prim.Native.String.{String}
use text.Mathlib.Text.{◌==◌ as str_eq}

insert-UniqueSockets :
    (c : Client) (cs : List Client)
    → find_ws c.ws cs ≡ none
    → UniqueSockets cs
    → UniqueSockets (insert c cs)
unfolding insert
insert-UniqueSockets c cs fresh u = elim (Option-cases (find_mcode c.mcode cs)) [
  | inl e ↦ rw (insert, e, UniqueSockets) (fresh, u)
  | inr (d, e) ↦ rw (insert, e) u
]

replace-UniqueSockets :
    (c : Client) (cs : List Client) → UniqueSockets cs → UniqueSockets (replace_ws c cs)
unfolding replace_ws
replace-UniqueSockets c cs u =
    insert-UniqueSockets c (erase_ws c.ws cs) (find-erase_self c.ws cs u)
      (erase-UniqueSockets c.ws cs u)

module _ (f : Client → Client) (same : (k : Client) → (f k).ws ≡ k.ws) where
  find-modify :
      (d : String) (w : ℕ) (cs : List Client)
      → find_ws w cs ≡ none
      → find_ws w (modify_mcode d f cs) ≡ none
  unfolding modify_mcode find_ws
  find-modify d w [] h = refl
  find-modify d w (c ∷ cs) h = elim (Bool-cases (c.ws == w)) [
    | inl here ↦ cc (rw here at h)
    | inr other ↦
        let h' = rw other at h in
        elim (Bool-cases (str_eq c.mcode d)) [
          | inl found ↦ rw (found, find_ws, same c, other) h'
          | inr not_found ↦ rw (not_found, find_ws, other) (find-modify d w cs h')
        ]
  ]

  modify-UniqueSockets :
      (d : String) (cs : List Client) → UniqueSockets cs → UniqueSockets (modify_mcode d f cs)
  unfolding modify_mcode
  modify-UniqueSockets d [] u = u
  modify-UniqueSockets d (c ∷ cs) (h, u) = elim (Bool-cases (str_eq c.mcode d)) [
    | inl found ↦ rw (found, UniqueSockets, same c) (h, u)
    | inr not_found ↦ rw not_found (find-modify d c.ws cs h, modify-UniqueSockets d cs u)
  ]

UniqueSockets-IsKept : IsKept UniqueSockets
UniqueSockets-IsKept = record {
  erases = erase-UniqueSockets;
  replaces = replace-UniqueSockets;
  modifies = λ f keeps same. modify-UniqueSockets f same;
}

module _ (is_suited : IsSuited) where
  -- The sessions that the events of the server lead to from `s`, with handlers that run to their end,
  -- where a connection that is opened has a socket that no member has.
  pub data Served (s : Session) : Session → Type 0 where
    begin : Served s s
    opened :
        {t : Session} (ws : ℕ)
        → find_ws ws t.clients ≡ none
        → Served s t
        → Served s (on_open ws t).1
    told :
        {t t' : Session} {es : List Event} (now ws : ℕ) (m : Message)
        → Served s t
        → on_msg is_suited now ws m t ≡ some (es, t')
        → Served s t'
    closed :
        {t t' : Session} {es : List Event} (ws : ℕ)
        → Served s t
        → on_close ws t ≡ some (es, t')
        → Served s t'

  -- Whatever clients connect, send and leave, no two members ever have the same socket, if that is so at
  -- the beginning and every new connection has a socket that no member has.
  pub Served-UniqueSockets :
      {s t : Session} → UniqueSockets s.clients → Served s t → UniqueSockets t.clients
  Served-UniqueSockets u begin = u
  Served-UniqueSockets u (opened {t = t} ws fresh r) =
      rw (clients-on_open ws t)
        (insert-UniqueSockets (new_client ws) t.clients fresh (Served-UniqueSockets u r))
  Served-UniqueSockets u (told now ws m r e) = subst (Leaves UniqueSockets) e (
      on_msg-Leaves UniqueSockets UniqueSockets-IsKept is_suited now ws m _
        (Served-UniqueSockets u r))
  Served-UniqueSockets u (closed ws r e) =
      subst (Leaves UniqueSockets) e
        (on_close-Leaves UniqueSockets UniqueSockets-IsKept ws _ (Served-UniqueSockets u r))

  -- Whatever clients have connected, sent and left before, on sockets that no member had: a client with a
  -- role hears every message of the compressor once and in the order in which the compressor has made
  -- them, and nothing else comes from it; a client without a role and a socket that no member has hear
  -- none of them.
  pub Served-inbox :
      {s t : Session} (w : ℕ) (es : List JpegEvent)
      → UniqueSockets s.clients
      → Served s t
      → inbox w (deliver t.clients es) ≡ share (find_ws w t.clients) (wire es)
  Served-inbox {t = t} w es u r = inbox-deliver w t.clients es (Served-UniqueSockets u r)

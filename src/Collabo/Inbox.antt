-- ===== src/Collabo/Inbox.antt =====
-- What each client of Collabo.cpp hears, whatever the order in which the container is walked.
use encoder_with_web_socket.Prelude.{
  ℕ, ◌≡◌, refl, sym, inl, inr, Option, none, some, List, [], ◌∷◌, ◌++◌, append_assoc, arith, ◌==◌,
  if◌then◌else◌, Bool-cases,
}
use encoder_with_web_socket.Collabo.Clients.{Client, find_ws}
use encoder_with_web_socket.Collabo.Wire.{Bytes, image_init_message, image_message, has_role}
use encoder_with_web_socket.Collabo.Session.{Event, send}
use encoder_with_web_socket.Collabo.Stream.{send_members}
use encoder_with_web_socket.Jpeg.Loop.{Event as JpegEvent, image_init, deleted, image}
use encoder_with_web_socket.Collabo.Images.{send_image_init, send_image, deliver}

-- No two clients of the list have the same socket. The index by socket does not ask for it; a socket is
-- the address of an open connection.
abbrev pub UniqueSockets : List Client → Type 0
UniqueSockets [] = Unit {0}
UniqueSockets (c ∷ cs) = (find_ws c.ws cs ≡ none) × UniqueSockets cs

-- The messages that an event sends to the socket alone.
abbrev pub heard : ℕ → Event → List Bytes
heard ws (send to m) = if to == ws then m ∷ [] else []
heard ws _ = []

abbrev pub inbox : ℕ → List Event → List Bytes
inbox ws [] = []
inbox ws (e ∷ es) = heard ws e ++ inbox ws es

inbox-append : (ws : ℕ) (es fs : List Event) → inbox ws (es ++ fs) ≡ inbox ws es ++ inbox ws fs
inbox-append ws [] fs = refl
inbox-append ws (e ∷ es) fs =
    rw (inbox-append ws es fs) (sym (append_assoc (heard ws e) (inbox ws es) (inbox ws fs)))

-- What a client is sent of a message to all members.
abbrev pub share : Option Client → List Bytes → List Bytes
share none ms = []
share (some c) ms = if has_role c then ms else []

-- The events of the compressor as messages.
abbrev pub wire : List JpegEvent → List Bytes
wire [] = []
wire (image_init w h ∷ es) = image_init_message w h ∷ wire es
wire (image m ∷ es) = image_message m ∷ wire es
wire (deleted a ∷ es) = wire es

find-other :
    (ws : ℕ) (c : Client) (cs : List Client)
    → find_ws c.ws cs ≡ none
    → c.ws ≡ ws
    → find_ws ws cs ≡ none
find-other ws c cs h e = rw (← e) h

inbox-absent :
    (ws : ℕ) (m : Bytes) (cs : List Client)
    → find_ws ws cs ≡ none
    → inbox ws (send_members m cs) ≡ []
unfolding find_ws
inbox-absent ws m [] h = refl
inbox-absent ws m (c ∷ cs) h = elim (Bool-cases (c.ws == ws)) [
  | inl here ↦ cc (rw here at h)
  | inr other ↦
      let rest = inbox-absent ws m cs (rw other at h) in
      elim (Bool-cases (has_role c)) [
        | inl role ↦ simp (role, other) rest
        | inr no_role ↦ simp no_role rest
      ]
]

-- A message to all members reaches each of them once, and no client without a role.
pub inbox-send_members :
    (ws : ℕ) (m : Bytes) (cs : List Client)
    → UniqueSockets cs
    → inbox ws (send_members m cs) ≡ share (find_ws ws cs) (m ∷ [])
unfolding find_ws
inbox-send_members ws m [] u = refl
inbox-send_members ws m (c ∷ cs) (fresh, u) = elim (Bool-cases (c.ws == ws)) [
  | inl here ↦
      let rest = inbox-absent ws m cs (find-other ws c cs fresh (ground arith)) in
      elim (Bool-cases (has_role c)) [
        | inl role ↦ simp (role, here) (rw rest refl)
        | inr no_role ↦ simp (no_role, here) rest
      ]
  | inr other ↦
      let rest = inbox-send_members ws m cs u in
      elim (Bool-cases (has_role c)) [
        | inl role ↦ simp (role, other) rest
        | inr no_role ↦ simp (no_role, other) rest
      ]
]

share-nil : (o : Option Client) → share o [] ≡ []
share-nil none = refl
share-nil (some c) = elim (Bool-cases (has_role c)) [
  | inl role ↦ rw role refl
  | inr no_role ↦ rw no_role refl
]

share-append :
    (o : Option Client) (ms ns : List Bytes) → share o (ms ++ ns) ≡ share o ms ++ share o ns
share-append none ms ns = refl
share-append (some c) ms ns = elim (Bool-cases (has_role c)) [
  | inl role ↦ rw role refl
  | inr no_role ↦ rw no_role refl
]

-- A client with a role hears every message of the compressor once and in the order in which the
-- compressor has made them, and nothing else comes from it; a client without a role hears none of
-- them.
pub inbox-deliver :
    (ws : ℕ) (cs : List Client) (es : List JpegEvent)
    → UniqueSockets cs
    → inbox ws (deliver cs es) ≡ share (find_ws ws cs) (wire es)
unfolding send_image_init send_image
inbox-deliver ws cs [] u = sym (share-nil (find_ws ws cs))
inbox-deliver ws cs (image_init w h ∷ es) u =
    let m = image_init_message w h in
    rw
      (
        inbox-append ws (send_members m cs) (deliver cs es),
        inbox-send_members ws m cs u,
        inbox-deliver ws cs es u,
      )
      (sym (share-append (find_ws ws cs) (m ∷ []) (wire es)))
inbox-deliver ws cs (image m ∷ es) u =
    let n = image_message m in
    rw
      (
        inbox-append ws (send_members n cs) (deliver cs es),
        inbox-send_members ws n cs u,
        inbox-deliver ws cs es u,
      )
      (sym (share-append (find_ws ws cs) (n ∷ []) (wire es)))
inbox-deliver ws cs (deleted a ∷ es) u = inbox-deliver ws cs es u

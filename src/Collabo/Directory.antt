-- ===== src/Collabo/Directory.antt =====
-- The member list of Collabo.cpp without its order: who is on it, and what reaches whom.
use encoder_with_web_socket.Prelude.{
  ℕ, ◌≡◌, refl, inl, inr, false, none, List, [], ◌∷◌, arith, ◌==◌, if◌then◌else◌, Bool-cases,
}
use mathlib.Core.Quot
use mathlib.Core.Quot.{Quot, Quot-set}
use encoder_with_web_socket.Collabo.Clients.{Client, find_ws, erase_ws}
use encoder_with_web_socket.Collabo.Wire.{Bytes}
use encoder_with_web_socket.Collabo.Images.{deliver}
use encoder_with_web_socket.Collabo.Inbox.{UniqueSockets, inbox, inbox-deliver}
use encoder_with_web_socket.Jpeg.Loop.{Event as JpegEvent}

-- A list whose sockets are unique, in one of its orders.
abbrev pub Registry : Type 0
Registry = (cs : List Client) × UniqueSockets cs

-- Both lists give the same client for each socket.
abbrev pub SameMembers : Registry → Registry → Type 0
SameMembers a b = (ws : ℕ) → find_ws ws a.0 ≡ find_ws ws b.0

abbrev pub Directory : Type 0
Directory = Quot SameMembers

find-erase_other :
    (w ws : ℕ) (cs : List Client) → (w == ws) ≡ false → find_ws w (erase_ws ws cs) ≡ find_ws w cs
unfolding find_ws erase_ws
find-erase_other w ws [] h = refl
find-erase_other w ws (c ∷ cs) h = elim (Bool-cases (c.ws == ws)) [
  | inl gone ↦ let k : (c.ws == w) ≡ false = ground arith in rw (gone, k) refl
  | inr stays ↦ elim (Bool-cases (c.ws == w)) [
    | inl here ↦ rw (stays, find_ws, here) refl
    | inr other ↦ rw (stays, find_ws, other) (find-erase_other w ws cs h)
  ]
]

pub find-erase_self :
    (ws : ℕ) (cs : List Client) → UniqueSockets cs → find_ws ws (erase_ws ws cs) ≡ none
unfolding find_ws erase_ws
find-erase_self ws [] u = refl
find-erase_self ws (c ∷ cs) (fresh, u) = elim (Bool-cases (c.ws == ws)) [
  | inl gone ↦ let e : c.ws ≡ ws = ground arith in rw gone (rw e at fresh)
  | inr stays ↦ rw (stays, find_ws, stays) (find-erase_self ws cs u)
]

pub find-erase :
    (w ws : ℕ) (cs : List Client)
    → UniqueSockets cs
    → find_ws w (erase_ws ws cs) ≡ (if w == ws then none else find_ws w cs)
find-erase w ws cs u = elim (Bool-cases (w == ws)) [
  | inl same ↦ let e : w ≡ ws = ground arith in rw (same, e) (find-erase_self ws cs u)
  | inr other ↦ rw other (find-erase_other w ws cs other)
]

erase-absent :
    (w ws : ℕ) (cs : List Client) → find_ws w cs ≡ none → find_ws w (erase_ws ws cs) ≡ none
unfolding find_ws erase_ws
erase-absent w ws [] h = refl
erase-absent w ws (c ∷ cs) h = elim (Bool-cases (c.ws == w)) [
  | inl here ↦ cc (rw here at h)
  | inr other ↦ elim (Bool-cases (c.ws == ws)) [
    | inl gone ↦ rw gone (rw other at h)
    | inr stays ↦ rw (stays, find_ws, other) (erase-absent w ws cs (rw other at h))
  ]
]

pub erase-UniqueSockets :
    (ws : ℕ) (cs : List Client) → UniqueSockets cs → UniqueSockets (erase_ws ws cs)
unfolding erase_ws
erase-UniqueSockets ws [] u = u
erase-UniqueSockets ws (c ∷ cs) (fresh, u) = elim (Bool-cases (c.ws == ws)) [
  | inl gone ↦ rw gone u
  | inr stays ↦ rw stays (erase-absent c.ws ws cs fresh, erase-UniqueSockets ws cs u)
]

-- What a socket hears of the events of the compressor, whatever the order of the list.
inbox_of : ℕ → List JpegEvent → Registry → List Bytes
inbox_of w es r = inbox w (deliver r.0 es)

inbox_of-SameMembers :
    (w : ℕ) (es : List JpegEvent) (a b : Registry)
    → SameMembers a b
    → inbox_of w es a ≡ inbox_of w es b
unfolding inbox_of
inbox_of-SameMembers w es a b same =
    rw (inbox-deliver w a.0 es a.1, inbox-deliver w b.0 es b.1, same w) refl

messages_set : IsSet (List Bytes)
messages_set = hlevel

hears : ℕ → List JpegEvent → Directory → List Bytes
hears w es = Quot.lift messages_set (inbox_of w es) (inbox_of-SameMembers w es)

without : ℕ → Registry → Registry
without ws r = (erase_ws ws r.0, erase-UniqueSockets ws r.0 r.1)

without-SameMembers :
    (ws : ℕ) (a b : Registry) → SameMembers a b → SameMembers (without ws a) (without ws b)
unfolding without
without-SameMembers ws a b same w =
    rw (find-erase w ws a.0 a.1, find-erase w ws b.0 b.1, same w) refl

-- `clientList.erase` on the list without its order.
leave : ℕ → Directory → Directory
leave ws =
    Quot.lift Quot-set (λ r. Quot.mk (without ws r))
      (λ a b same. Quot.sound (without-SameMembers ws a b same))

without-inbox :
    (w ws : ℕ) (es : List JpegEvent) (r : Registry)
    → inbox_of w es (without ws r) ≡ (if w == ws then [] else inbox_of w es r)
unfolding without inbox_of
without-inbox w ws es r =
    let u = erase-UniqueSockets ws r.0 r.1 in
    rw (inbox-deliver w (erase_ws ws r.0) es u, inbox-deliver w r.0 es r.1, find-erase w ws r.0 r.1)
      (elim (Bool-cases (w == ws)) [ inl same ↦ rw same refl | inr other ↦ rw other refl ])

without_comm :
    (v ws : ℕ) (r : Registry) (w : ℕ)
    → find_ws w (without v (without ws r)).0 ≡ find_ws w (without ws (without v r)).0
unfolding without
without_comm v ws r w =
    let a = find-erase w v (erase_ws ws r.0) (erase-UniqueSockets ws r.0 r.1) in
    let b = find-erase w ws (erase_ws v r.0) (erase-UniqueSockets v r.0 r.1) in
    rw (a, b, find-erase w ws r.0 r.1, find-erase w v r.0 r.1)
      (elim (Bool-cases (w == v)) [ inl same ↦ rw same (ground arith) | inr other ↦ rw other refl ])

-- Whoever goes, the others hear what they would have heard, and the client that goes hears nothing
-- more: on the list without its order.
hears-leave :
    (w ws : ℕ) (es : List JpegEvent) (d : Directory)
    → hears w es (leave ws d) ≡ (if w == ws then [] else hears w es d)
unfolding hears leave
hears-leave w ws es = Quot.ind (λ d. messages_set _ _) (λ r. without-inbox w ws es r)

-- The order in which clients go is forgotten.
leave_comm : (v ws : ℕ) (d : Directory) → leave v (leave ws d) ≡ leave ws (leave v d)
unfolding leave
leave_comm v ws = Quot.ind (λ d. Quot-set _ _) (λ r. Quot.sound (without_comm v ws r))

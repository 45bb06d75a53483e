-- ===== src/Collabo/Roster.antt =====
-- Who is on the list: a client that the list refuses, and what the member list says.
use encoder_with_web_socket.Prelude.{
  le_bytes, codes, ℕ, ◌+◌, ◌*◌, ◌≡◌, refl, inl, inr, false, none, some, List, [], ◌∷◌, arith,
  if◌then◌else◌, Bool-cases, length, length-append,
}
use encoder_with_web_socket.Collabo.Clients.{Client, new_client, find_ws, find_mcode, insert}
use encoder_with_web_socket.Collabo.Wire.{
  member, has_role, text_sizes, list_size, members, list_message,
}
use encoder_with_web_socket.Encoder.State.{already_init_error}
use encoder_with_web_socket.Collabo.Session.{
  Session, Message, IsSuited, restarted, on_open, on_close, on_msg, start_streaming,
}
use encoder_with_web_socket.Collabo.Streams.{ClbContext, encoder_context}
use encoder_with_web_socket.Encoder.Setup.{Answers}
use encoder_with_web_socket.Encoder.Life.{Encoder, initialize}

on_open-clients :
    (ws : ℕ) (s : Session) (d : Client)
    → find_mcode "" s.clients ≡ some d
    → (on_open ws s).1.clients ≡ s.clients
unfolding on_open insert
on_open-clients ws s d e =
    let q : insert (new_client ws) s.clients ≡ s.clients = rw (e, insert) refl in
    rw q (ground arith)

-- While a client on the list has not sent its SETTING, another that connects on a socket that is
-- not on the list is not taken on it; its first message, and its going, then read through the end
-- of the index.
on_open-refused :
    (is_suited : IsSuited) (now ws : ℕ) (s : Session) (d : Client) (m : Message)
    → find_mcode "" s.clients ≡ some d
    → find_ws ws s.clients ≡ none
    → let s' = (on_open ws s).1 in
      (s'.clients ≡ s.clients) × (on_msg is_suited now ws m s' ≡ none) × (on_close ws s' ≡ none)
unfolding on_msg on_close
on_open-refused is_suited now ws s d m e n =
    let k = on_open-clients ws s d e in
    let f : find_ws ws (on_open ws s).1.clients ≡ none = rw k n in
    (k, rw (f, on_msg) refl, rw (f, on_close) refl)

-- While the only client on the list has not sent its SETTING, another that connects makes the host start
-- streaming again without a stop, and the header that has been read is dropped; an encoder that runs
-- refuses to be set up then, starts no loop and does not change, so that it writes no new header.
on_open-again :
    (ws : ℕ) (s : Session) (c : Client) (a : Answers) (clb : ClbContext) (mode : ℕ) (e : Encoder)
    → find_mcode "" s.clients ≡ some c
    → length s.clients ≡ 1
    → e.stopped ≡ false
    → (on_open ws s ≡ (start_streaming ∷ [], restarted s))
      × (initialize a (encoder_context mode clb) e ≡ (already_init_error, [], e))
unfolding on_open insert initialize
on_open-again ws s c a clb mode e nameless one running =
    let q : insert (new_client ws) s.clients ≡ s.clients = rw (nameless, insert) refl in
    (simp (q, one) refl, simp running refl)

-- How many clients of the list have no role.
abbrev pub roleless : List Client → ℕ
roleless [] = 0
roleless (c ∷ cs) = (if has_role c then 0 else 1) + roleless cs

length-member :
    (c : Client)
    → length (member c)
      ≡ 14 + (length (codes c.mcode) + length (codes c.custom) + length (codes c.name))
unfolding member le_bytes
length-member c = simp length-append (omega arith)

length-members :
    (cs : List Client) → length (members cs) + 14 * roleless cs ≡ text_sizes cs + 14 * length cs
unfolding members text_sizes
length-members [] = omega arith
length-members (c ∷ cs) = elim (Bool-cases (has_role c)) [
  | inl r ↦ rw (r, length-append) (omega (arith, length-members cs, length-member c))
  | inr r ↦ rw r (omega (arith, length-members cs))
]

-- The member list never overruns the buffer that is allocated for it, which is also what is sent: it
-- leaves 14 bytes of it unwritten for each client without a role.
pub length-list_message :
    (cs : List Client) → length (list_message cs) + 14 * roleless cs ≡ list_size cs
unfolding list_message list_size text_sizes members
length-list_message cs = omega (arith, length-members cs)

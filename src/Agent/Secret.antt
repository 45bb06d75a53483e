-- ===== src/Agent/Secret.antt =====
-- Whom AgentManager.cpp tells the meeting and its password, and what it sends then.
use encoder_with_web_socket.Prelude.{
  take-append, le_bytes, slice, slice-append-drop, ℕ, zero, suc, ◌+◌, ◌-◌, ◌≤◌, min, ◌≡◌, refl, sym,
  ap, ◌∙◌, ◌≢◌, inl, inr, true, false, List, [], ◌∷◌, ◌++◌, append-nil, arith, leb, Bool-cases,
  length, length-append, take, drop, length-take,
}
use encoder_with_web_socket.Agent.{
  Bytes, AgentManager, Recv, Send, Progress, recv_loop, reply, prepend, send_loop, is_magic,
  send_once, Event, Exit, report, after_reply, after_check, turn, recv_error, recv_zero, received,
  send_error, send_zero, taken, complete, timeout, waiting, connected, opened, closed, slept, sent,
  goes_on,
}

-- The bytes that come before the peer closes.
abbrev pub stream : List Recv → Bytes
stream [] = []
stream (recv_error ∷ rs) = stream rs
stream (recv_zero ∷ rs) = []
stream (received b bs ∷ rs) = (b ∷ bs) ++ stream rs

-- The number that a peer has to send.
abbrev pub magic : Bytes
magic = 0x12 ∷ 0x34 ∷ 0x56 ∷ 0x78 ∷ []

-- All bytes that go out.
abbrev pub output : List Event → Bytes
output [] = []
output (sent bs ∷ es) = bs ++ output es
output (opened ∷ es) = output es
output (closed ∷ es) = output es
output (slept ∷ es) = output es

take-take : {A : Type 0} (n : ℕ) (ys zs : List A) → take n (take n ys ++ zs) ≡ take n (ys ++ zs)
take-take zero ys zs = refl
take-take (suc n) [] zs = refl
take-take (suc n) (y ∷ ys) zs = ap (◌∷◌ y) (take-take n ys zs)

take-take_append :
    {A : Type 0} (n : ℕ) (xs ys zs : List A)
    → length xs ≤ n
    → take n ((xs ++ take (n - length xs) ys) ++ zs) ≡ take n (xs ++ (ys ++ zs))
take-take_append n [] ys zs h = let e : n - 0 ≡ n = omega arith in rw e (take-take n ys zs)
take-take_append zero (x ∷ xs) ys zs h = absurd (omega arith)
take-take_append (suc n) (x ∷ xs) ys zs h =
    let e : suc n - suc (length xs) ≡ n - length xs = omega arith in
    rw e (ap (◌∷◌ x) (take-take_append n xs ys zs (omega arith)))

-- A buffer that is full.
full_lem :
    (check rest out : Bytes)
    → length check ≤ 4
    → leb 4 (length check) ≡ true
    → complete check ≡ complete out
    → out ≡ take 4 (check ++ rest)
full_lem check rest out h k e = rw (take-append check rest 4 (ground arith)) (ground arith)

length-received :
    (check bs : Bytes) → length check ≤ 4 → length (check ++ take (4 - length check) bs) ≤ 4
length-received check bs h = rw length-append (omega (arith, length-take (4 - length check) bs))

-- However the bytes are cut into pieces, and whatever errors come between, the first four are read.
recv_loop-take :
    (check : Bytes) (rs : List Recv) (out : Bytes)
    → length check ≤ 4
    → recv_loop check rs ≡ complete out
    → out ≡ take 4 (check ++ stream rs)
unfolding recv_loop
recv_loop-take check [] out h e = elim (Bool-cases (leb 4 (length check))) [
  | inl k ↦ full_lem check [] out h k (rw k at e)
  | inr k ↦ cc (rw k at e)
]
recv_loop-take check (recv_error ∷ rs) out h e = elim (Bool-cases (leb 4 (length check))) [
  | inl k ↦ full_lem check (stream rs) out h k (rw k at e)
  | inr k ↦ recv_loop-take check rs out h (rw k at e)
]
recv_loop-take check (recv_zero ∷ rs) out h e = elim (Bool-cases (leb 4 (length check))) [
  | inl k ↦ full_lem check [] out h k (rw k at e)
  | inr k ↦ cc (rw k at e)
]
recv_loop-take check (received b bs ∷ rs) out h e = elim (Bool-cases (leb 4 (length check))) [
  | inl k ↦ full_lem check ((b ∷ bs) ++ stream rs) out h k (rw k at e)
  | inr k ↦
      let more = check ++ take (4 - length check) (b ∷ bs) in
      recv_loop-take more rs out (length-received check (b ∷ bs) h) (rw k at e)
      ∙ take-take_append 4 check (b ∷ bs) (stream rs) h
]

-- If four bytes come before the peer closes, they are read.
pub recv_loop-complete :
    (check : Bytes) (rs : List Recv)
    → length check ≤ 4
    → 4 ≤ length (check ++ stream rs)
    → recv_loop check rs ≡ complete (take 4 (check ++ stream rs))
unfolding recv_loop
recv_loop-complete check [] h l = elim (Bool-cases (leb 4 (length check))) [
  | inl k ↦ rw k (ap complete (full_lem check [] check h k refl))
  | inr k ↦ absurd (let l' = rw (append-nil check) at l in ground arith)
]
recv_loop-complete check (recv_error ∷ rs) h l = elim (Bool-cases (leb 4 (length check))) [
  | inl k ↦ rw k (ap complete (full_lem check (stream rs) check h k refl))
  | inr k ↦ rw k (recv_loop-complete check rs h l)
]
recv_loop-complete check (recv_zero ∷ rs) h l = elim (Bool-cases (leb 4 (length check))) [
  | inl k ↦ rw k (ap complete (full_lem check [] check h k refl))
  | inr k ↦ absurd (let l' = rw (append-nil check) at l in ground arith)
]
recv_loop-complete check (received b bs ∷ rs) h l = elim (Bool-cases (leb 4 (length check))) [
  | inl k ↦ rw k (ap complete (full_lem check ((b ∷ bs) ++ stream rs) check h k refl))
  | inr k ↦
      let more = check ++ take (4 - length check) (b ∷ bs) in
      let same = take-take_append 4 check (b ∷ bs) (stream rs) h in
      rw (k, ← same)
        (recv_loop-complete more rs (length-received check (b ∷ bs) h) (
          omega (
            arith,
            length-append more (stream rs),
            length-append check (take (4 - length check) (b ∷ bs)),
            length-take (4 - length check) (b ∷ bs),
            length-append check ((b ∷ bs) ++ stream rs),
            length-append (b ∷ bs) (stream rs),
          )))
]

prepend-complete :
    (bs : Bytes) (p : Progress) (out : Bytes)
    → prepend bs p ≡ complete out
    → (o : Bytes) × (p ≡ complete o) × (bs ++ o ≡ out)
prepend-complete bs (complete o) out e = (o, refl, ground arith)
prepend-complete bs (timeout o) out e = cc
prepend-complete bs (waiting o) out e = cc

leb-of : (n : ℕ) → 4 ≤ n → leb 4 n ≡ true
leb-of n h = ground arith

-- What has gone out when the loop is left by its condition.
send_loop-drop :
    (n : ℕ) (ss : List Send) (out : Bytes)
    → n ≤ 4
    → send_loop n ss ≡ complete out
    → out ≡ drop n reply
unfolding send_loop
send_loop-drop n [] out h e = elim (Bool-cases (leb 4 n)) [
  | inl k ↦ let q : n ≡ 4 = ground arith in rw q (ground (arith, rw k at e))
  | inr k ↦ cc (rw k at e)
]
send_loop-drop n (send_error ∷ ss) out h e = elim (Bool-cases (leb 4 n)) [
  | inl k ↦ let q : n ≡ 4 = ground arith in rw q (ground (arith, rw k at e))
  | inr k ↦ send_loop-drop n ss out h (rw k at e)
]
send_loop-drop n (send_zero ∷ ss) out h e = elim (Bool-cases (leb 4 n)) [
  | inl k ↦ let q : n ≡ 4 = ground arith in rw q (ground (arith, rw k at e))
  | inr k ↦ cc (rw k at e)
]
send_loop-drop n (taken t ∷ ss) out h e = elim (Bool-cases (leb 4 n)) [
  | inl k ↦ let q : n ≡ 4 = ground arith in rw q (ground (arith, rw k at e))
  | inr k ↦
      let m = min (t + 1) (4 - n) in
      let (o, p, q) = prepend-complete (slice reply n m) (send_loop (n + m) ss) out (rw k at e) in
      rw (← q, send_loop-drop (n + m) ss o (omega arith) p) (slice-append-drop n m reply)
]

-- The bytes that `send` takes before it first answers 0.
abbrev pub accepted : List Send → ℕ
accepted [] = 0
accepted (send_error ∷ ss) = accepted ss
accepted (send_zero ∷ ss) = 0
accepted (taken k ∷ ss) = (k + 1) + accepted ss

pub send_loop-complete :
    (n : ℕ) (ss : List Send)
    → n ≤ 4
    → 4 ≤ n + accepted ss
    → (out : Bytes) × (send_loop n ss ≡ complete out)
unfolding send_loop
send_loop-complete n [] h l = ([], rw (leb-of n (omega arith)) refl)
send_loop-complete n (send_error ∷ ss) h l = elim (Bool-cases (leb 4 n)) [
  | inl k ↦ ([], rw k refl)
  | inr k ↦ let (o, e) = send_loop-complete n ss h l in (o, rw k e)
]
send_loop-complete n (send_zero ∷ ss) h l = ([], rw (leb-of n (omega arith)) refl)
send_loop-complete n (taken t ∷ ss) h l = elim (Bool-cases (leb 4 n)) [
  | inl k ↦ ([], rw k refl)
  | inr k ↦
      let m = min (t + 1) (4 - n) in
      let (o, e) = send_loop-complete (n + m) ss (omega arith) (omega arith) in
      (slice reply n m ++ o, rw (k, e) refl)
]

is_magic-eq : (bs : Bytes) → length bs ≤ 4 → is_magic bs ≡ true → bs ≡ magic
unfolding is_magic
is_magic-eq [] h e = cc
is_magic-eq (a ∷ []) h e = cc
is_magic-eq (a ∷ b ∷ []) h e = cc
is_magic-eq (a ∷ b ∷ c ∷ []) h e = cc
is_magic-eq (a ∷ b ∷ c ∷ d ∷ []) h e = ground arith
is_magic-eq (a ∷ b ∷ c ∷ d ∷ x ∷ rest) h e = absurd (omega arith)

after_check-silent :
    (p : Progress) (answer : List Event × Exit)
    → ((out : Bytes) → p ≡ complete out → is_magic out ≡ false)
    → output (after_check p answer).0 ≡ []
after_check-silent (waiting check) answer h = refl
after_check-silent (timeout check) answer h = refl
after_check-silent (complete check) answer h = rw (h check refl) refl

-- A peer whose first four bytes before it closes are not the magic number is sent nothing.
pub turn-secret :
    (m : AgentManager) (rs : List Recv) (ss : List Send) (a b c d : Send)
    → take 4 (stream rs) ≢ magic
    → output (turn m (connected rs ss a b c d)).0 ≡ []
unfolding turn
turn-secret m rs ss a b c d h =
    after_check-silent (recv_loop [] rs) (after_reply (send_loop 0 ss) (report m a b c d)) other
  where
    other : (out : Bytes) → recv_loop [] rs ≡ complete out → is_magic out ≡ false
    other out e = elim (Bool-cases (is_magic out)) [
      | inl k ↦
          let q = recv_loop-take [] rs out (omega arith) e in
          absurd (h (sym q ∙ is_magic-eq out (rw q (omega (arith, length-take 4 (stream rs)))) k))
      | inr k ↦ k
    ]

-- However the magic number of a peer is cut into pieces, and the answer to it as it is sent, with
-- errors in between, the peer is sent the whole answer, and then the length and the bytes of the
-- meeting and of the password, if each of the last four `send`s takes what it is given.
pub turn_report :
    (m : AgentManager) (rs : List Recv) (ss : List Send) (a b c d : Send)
    → take 4 (stream rs) ≡ magic
    → 4 ≤ accepted ss
    → send_once a (le_bytes 4 (length m.meet_seq)) ≡ le_bytes 4 (length m.meet_seq)
    → send_once b m.meet_seq ≡ m.meet_seq
    → send_once c (le_bytes 4 (length m.password)) ≡ le_bytes 4 (length m.password)
    → send_once d m.password ≡ m.password
    → let r = turn m (connected rs ss a b c d) in
      (output r.0
        ≡ reply
          ++ (le_bytes 4 (length m.meet_seq)
              ++ (m.meet_seq ++ (le_bytes 4 (length m.password) ++ m.password))))
      × (r.1 ≡ goes_on)
unfolding turn report is_magic
turn_report m rs ss a b c d h k ha hb hc hd =
    let l : 4 ≤ length (stream rs) = omega (arith, ap length h, length-take 4 (stream rs)) in
    let e = recv_loop-complete [] rs (omega arith) l in
    let (out, f) = send_loop-complete 0 ss (omega arith) (omega (arith, k)) in
    let g = send_loop-drop 0 ss out (omega arith) f in
    rw (e, h, f, g) (simp (ha, hb, hc, hd, append-nil) (refl, refl))

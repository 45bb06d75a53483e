-- ===== src/Jpeg/Threads/Stops.antt =====
-- What `stop()` of JpegCompressor.cpp does to the threads of its loop, and what undoes it.
use encoder_with_web_socket.Prelude.{
  ℕ, zero, suc, ◌≡◌, refl, sym, ap, ◌∙◌, ◌≢◌, ◌⊎◌, inl, inr, Bool, true, false, ◌||◌, Option, none,
  some, List, [], ◌∷◌, ◌++◌, append-nil, arith, ◌==◌, Bool-cases, length, get_elem?, set,
  get_elem?-append_some, get_elem?-append_end, set-append_end,
}
use encoder_with_web_socket.Jpeg.Loop.{
  Captured, Compressor, TjCall, TjResult, round, begin_loop, image_init,
}
use encoder_with_web_socket.Jpeg.Threads.{
  Thread, Pool, initialize, Act, loop_turn, thread_turn, act, acts, begins, looping, ended,
  call_initialize, call_send_full, call_stop, destroy, turn,
}

-- Whether the act is not a call of `initialize`.
abbrev pub is_quiet : Act → Bool
is_quiet (call_initialize w h) = false
is_quiet call_send_full = true
is_quiet call_stop = true
is_quiet destroy = true
is_quiet (turn i f) = true

abbrev pub AllQuiet : List Act → Type 0
AllQuiet [] = Unit {0}
AllQuiet (a ∷ rest) = (is_quiet a ≡ true) × AllQuiet rest

-- Whether the act is a turn of the thread.
abbrev pub is_turn_of : ℕ → Act → Bool
is_turn_of i (call_initialize w h) = false
is_turn_of i call_send_full = false
is_turn_of i call_stop = false
is_turn_of i destroy = false
is_turn_of i (turn j f) = i == j

abbrev pub gets_turn : ℕ → List Act → Bool
gets_turn i [] = false
gets_turn i (a ∷ rest) = is_turn_of i a || gets_turn i rest

-- `stop()` has been called, and each thread has come to its loop.
abbrev pub IsHalted : Pool → Type 0
IsHalted p = (p.stopped ≡ true) × ((i w h : ℕ) → get_elem? p.threads i ≢ some (begins w h))

-- Each thread is as it was, or has returned.
abbrev Settles : List Thread → List Thread → Type 0
Settles ts us = (i : ℕ) → (get_elem? us i ≡ get_elem? ts i) ⊎ (get_elem? us i ≡ some ended)

set-ended : (ts : List Thread) (j : ℕ) → Settles ts (set ts j ended)
set-ended [] j i = inl refl
set-ended (t ∷ ts) zero zero = inr refl
set-ended (t ∷ ts) zero (suc i) = inl refl
set-ended (t ∷ ts) (suc j) zero = inl refl
set-ended (t ∷ ts) (suc j) (suc i) = set-ended ts j i

set-ended_self :
    (ts : List Thread) (i : ℕ) (t : Thread)
    → get_elem? ts i ≡ some t
    → get_elem? (set ts i ended) i ≡ some ended
set-ended_self [] i t e = cc
set-ended_self (u ∷ ts) zero t e = refl
set-ended_self (u ∷ ts) (suc i) t e = set-ended_self ts i t e

Settles-IsHalted :
    (p q : Pool) → IsHalted p → q.stopped ≡ true → Settles p.threads q.threads → IsHalted q
Settles-IsHalted p q halted stopped settles = (
  stopped,
  λ i w h e. elim (settles i) [ inl same ↦ halted.1 i w h (sym same ∙ e) | inr gone ↦ cc ],
)

module _ (tj_compress : TjCall → TjResult) where
  turn-Settles :
      (p : Pool) (j : ℕ) (f : Captured) (t : Option Thread)
      → IsHalted p
      → get_elem? p.threads j ≡ t
      → let r = thread_turn tj_compress p j f t in
        (r.0 ≡ []) × (r.1.stopped ≡ true) × Settles p.threads r.1.threads
  unfolding loop_turn
  turn-Settles p j f none halted e = (refl, halted.0, λ i. inl refl)
  turn-Settles p j f (some ended) halted e = (refl, halted.0, λ i. inl refl)
  turn-Settles p j f (some (begins w h)) halted e = absurd (halted.1 j w h e)
  turn-Settles p j f (some (looping c)) halted e = simp halted.0 (refl, refl, set-ended p.threads j)

  act-Settles :
      (p : Pool) (a : Act)
      → is_quiet a ≡ true
      → IsHalted p
      → let r = act tj_compress p a in
        (r.0 ≡ []) × (r.1.stopped ≡ true) × Settles p.threads r.1.threads
  unfolding act
  act-Settles p (call_initialize w h) quiet halted = cc
  act-Settles p call_send_full quiet halted = (refl, halted.0, λ i. inl refl)
  act-Settles p call_stop quiet halted = (refl, refl, λ i. inl refl)
  act-Settles p destroy quiet halted = (refl, refl, λ i. inl refl)
  act-Settles p (turn j f) quiet halted = turn-Settles p j f (get_elem? p.threads j) halted refl

  turn-ended :
      (p : Pool) (i : ℕ) (f : Captured) (t : Thread)
      → IsHalted p
      → get_elem? p.threads i ≡ some t
      → get_elem? (thread_turn tj_compress p i f (some t)).1.threads i ≡ some ended
  unfolding loop_turn
  turn-ended p i f ended halted e = e
  turn-ended p i f (begins w h) halted e = absurd (halted.1 i w h e)
  turn-ended p i f (looping c) halted e = simp halted.0 (set-ended_self p.threads i (looping c) e)

  act-ended :
      (p : Pool) (a : Act) (i : ℕ) (t : Thread)
      → IsHalted p
      → get_elem? p.threads i ≡ some t
      → is_turn_of i a ≡ true
      → get_elem? (act tj_compress p a).1.threads i ≡ some ended
  unfolding act
  act-ended p (call_initialize w h) i t halted e k = cc
  act-ended p call_send_full i t halted e k = cc
  act-ended p call_stop i t halted e k = cc
  act-ended p destroy i t halted e k = cc
  act-ended p (turn j f) i t halted e k =
      let q : j ≡ i = ground arith in rw (q, e) (turn-ended p i f t halted e)

  -- What is still due to a thread behind an act.
  act-due :
      (p : Pool) (a : Act) (rest : List Act) (i : ℕ) (t : Thread)
      → is_quiet a ≡ true
      → IsHalted p
      → get_elem? p.threads i ≡ some t
      → (t ≡ ended) ⊎ (gets_turn i (a ∷ rest) ≡ true)
      → (u : Thread) × (get_elem? (act tj_compress p a).1.threads i ≡ some u)
        × ((u ≡ ended) ⊎ (gets_turn i rest ≡ true))
  act-due p a rest i t quiet halted e due = elim ((act-Settles p a quiet halted).2 i) [
    | inr gone ↦ (ended, gone, inl refl)
    | inl same ↦ elim (Bool-cases (is_turn_of i a)) [
      | inl k ↦ (ended, act-ended p a i t halted e k, inl refl)
      | inr k ↦ (t, same ∙ e, elim due [ inl over ↦ inl over | inr later ↦ inr (rw k at later) ])
    ]
  ]

  -- A thread that is there, and has a turn or has returned before, has returned at the end.
  acts-ended :
      (p : Pool) (rest : List Act) (i : ℕ) (t : Thread)
      → AllQuiet rest
      → IsHalted p
      → get_elem? p.threads i ≡ some t
      → (t ≡ ended) ⊎ (gets_turn i rest ≡ true)
      → let r = acts tj_compress p rest in
        (r.0 ≡ []) × (r.1.stopped ≡ true) × (get_elem? r.1.threads i ≡ some ended)
  unfolding acts
  acts-ended p [] i t quiet halted e (inl over) = (refl, halted.0, e ∙ ap some over)
  acts-ended p [] i t quiet halted e (inr later) = cc
  acts-ended p (a ∷ rest) i t quiet halted e due =
      let (none_out, stopped, settles) = act-Settles p a quiet.0 halted in
      let q = (act tj_compress p a).1 in
      let (u, there, due') = act-due p a rest i t quiet.0 halted e due in
      rw none_out
        (acts-ended q rest i u quiet.1 (Settles-IsHalted p q halted stopped settles) there due')

  -- Once `stop()` or the destructor has been called and each thread has come to its loop, each
  -- thread returns at its next turn, whatever else happens but a call of `initialize`. A round is one
  -- turn here: a loop of the source that is in the middle of one still sends its image.
  stop-ends :
      (p : Pool) (rest : List Act) (i : ℕ) (t : Thread)
      → AllQuiet rest
      → ((j w h : ℕ) → get_elem? p.threads j ≢ some (begins w h))
      → get_elem? p.threads i ≡ some t
      → gets_turn i rest ≡ true
      → let r = acts tj_compress (act tj_compress p call_stop).1 rest in
        (r.0 ≡ []) × (r.1.stopped ≡ true) × (get_elem? r.1.threads i ≡ some ended)
  unfolding act
  stop-ends p rest i t quiet begun e due =
      acts-ended (record p { stopped = true }) rest i t quiet (refl, begun) e (inr due)

  -- A loop that has been stopped goes on if `initialize` is called and its new thread starts before
  -- the old one wakes up: the old one does its round, with all it holds, and two loops run from then
  -- on.
  pub stop-lost :
      (p : Pool) (i w h : ℕ) (c : Compressor) (f g : Captured)
      → get_elem? p.threads i ≡ some (looping c)
      → let n = length p.threads in
        let r = acts tj_compress p (call_stop ∷ call_initialize w h ∷ turn n f ∷ turn i g ∷ []) in
        let old = round tj_compress (record c { stopped = false; full_flag = p.full_flag }) g in
        (r.0 ≡ image_init w h ∷ old.0)
        × (r.1.stopped ≡ false)
        × (r.1.threads
            ≡ set (p.threads ++ looping (begin_loop p.full_flag w h).1 ∷ []) i (looping old.1))
  unfolding acts act initialize begin_loop loop_turn
  stop-lost p i w h c f g e =
      rw
        (
          get_elem?-append_end p.threads (begins w h),
          set-append_end p.threads (begins w h) (looping (begin_loop p.full_flag w h).1),
          get_elem?-append_some p.threads (looping (begin_loop p.full_flag w h).1 ∷ []) i
              (looping c) e,
          append-nil
              (round tj_compress (record c { stopped = false; full_flag = p.full_flag }) g).0,
        )
        (refl, refl, refl)

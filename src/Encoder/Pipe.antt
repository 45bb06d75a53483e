-- ===== src/Encoder/Pipe.antt =====
-- The sound of Encoder.cpp from `encodeAudio` through the queue to the codec.
use encoder_with_web_socket.Prelude.{
  ℕ, ◌-◌, ◌≤◌, ◌<◌, ◌≡◌, refl, sym, ap, ◌∙◌, inl, inr, true, false, Option, none, some, List, [],
  ◌∷◌, ◌++◌, append_assoc, append-nil, arith, if◌then◌else◌, ◌==◌, Bool-cases, length,
}
use encoder_with_web_socket.Queue.{
  EncoderElement, EncoderCq, Outcome, map_outcome, Taken, take_front, Dequeue, dequeue, done, fault,
  returned, waits,
}
use encoder_with_web_socket.Queue.Order.{
  IsValid as IsValidQueue, contents, pushed, enqueue-pushed, contents-pushed, popped,
  take_front-popped, pushed-IsValid, popped-IsValid,
}
use encoder_with_web_socket.Encoder.Life.{Encoder, encode_audio}
use encoder_with_web_socket.Encoder.Codec.{Bytes}

-- What the threads do in turn: a piece is captured and copied to an address, or the loop looks for one.
pub data Tick : Type 0 where
  capture : ℕ → Tick
  look : Tick

abbrev pub kept : Option EncoderElement → List EncoderElement
kept none = []
kept (some e) = e ∷ []

-- The element that `dequeue` gives to the loop; in `waits` the loop goes to sleep, and goes on behind
-- the next capture. The queues of an encoder wait, and so there is no element only behind `stop`.
abbrev pub took : Encoder → Dequeue → Outcome (List EncoderElement × Encoder)
took e waits = done ([], e)
took e (returned o) = map_outcome (λ (t : Taken). (kept t.1, record e { audio_cq = t.2 })) o

-- Looking into an empty queue that runs, the loop goes to sleep.
empty-dequeue :
    (q : EncoderCq)
    → q.is_stop ≡ false
    → q.is_wait ≡ true
    → (q.front == q.rear) ≡ true
    → dequeue q ≡ waits
unfolding dequeue
empty-dequeue q flows sleepy empty = simp (empty, sleepy, flows)

ready-dequeue : (q : EncoderCq) → (q.front == q.rear) ≡ false → dequeue q ≡ returned (take_front q)
unfolding dequeue
ready-dequeue q ready = simp ready

-- `memory a` is what the copy at the address `a` holds.
module _ (memory : ℕ → Bytes) where
  abbrev pub element : ℕ → EncoderElement
  element a = record { buffer = a; size = length (memory a); fake = false }

  abbrev pub tick : Encoder → Tick → Outcome (List EncoderElement × Encoder)
  tick e (capture a) = map_outcome (λ r. ([], r.2)) (encode_audio a (length (memory a)) e)
  tick e look =
      if e.stopped
      then done ([], e)
      else if e.context.is_silent
      then done ([], e)
      else took e (dequeue e.audio_cq)

  abbrev pub then_ticks :
      Outcome (List EncoderElement × Encoder)
      → (Encoder → Outcome (List EncoderElement × Encoder))
      → Outcome (List EncoderElement × Encoder)
  then_ticks fault next = fault
  then_ticks (done (xs, e)) next = map_outcome (λ r. (xs ++ r.0, r.1)) (next e)

  -- The elements that the loop takes in turn, and the encoder behind them.
  unfoldable pub ticks : Encoder → List Tick → Outcome (List EncoderElement × Encoder)
  ticks e [] = done ([], e)
  ticks e (t ∷ ts) = then_ticks (tick e t) (λ d. ticks d ts)

  abbrev pub captured : List Tick → List EncoderElement
  captured [] = []
  captured (capture a ∷ ts) = element a ∷ captured ts
  captured (look ∷ ts) = captured ts

  -- The encoder runs and is not silent, and its queue runs, waits, and has room for the captures.
  abbrev pub HasRoom : Encoder → List Tick → Type 0
  HasRoom e ts =
      (e.stopped ≡ false)
      × (e.context.is_silent ≡ false)
      × (e.audio_cq.is_wait ≡ true)
      × (e.audio_cq.is_stop ≡ false)
      × IsValidQueue e.audio_cq
      × (length (captured ts) ≤ e.audio_cq.maxsize - e.audio_cq.rear)

  encode_audio-pushed :
      (e : Encoder) (a : ℕ)
      → e.stopped ≡ false
      → e.audio_cq.is_stop ≡ false
      → IsValidQueue e.audio_cq
      → e.audio_cq.rear < e.audio_cq.maxsize
      → tick e (capture a) ≡ done ([], record e { audio_cq = pushed e.audio_cq (element a) })
  unfolding encode_audio
  encode_audio-pushed e a running flows v room =
      simp (running, enqueue-pushed (element a) v flows room)

  -- Looking takes the oldest element, or none.
  look-popped :
      (e : Encoder)
      → e.stopped ≡ false
      → e.context.is_silent ≡ false
      → e.audio_cq.is_wait ≡ true
      → e.audio_cq.is_stop ≡ false
      → IsValidQueue e.audio_cq
      → (xs : List EncoderElement) × (q : EncoderCq) × (tick e look
          ≡ done (xs, record e { audio_cq = q }))
        × (contents e.audio_cq ≡ xs ++ contents q)
        × IsValidQueue q
        × (q.is_stop ≡ false)
        × (q.is_wait ≡ true)
        × (q.maxsize - q.rear ≡ e.audio_cq.maxsize - e.audio_cq.rear)
  look-popped e running loud sleepy flows v =
      elim (Bool-cases (e.audio_cq.front == e.audio_cq.rear)) [
        | inl empty ↦ (
          [],
          e.audio_cq,
          rw (running, loud, empty-dequeue e.audio_cq flows sleepy empty) refl,
          refl,
          v,
          flows,
          sleepy,
          refl,
        )
        | inr ready ↦
            let h : e.audio_cq.front < e.audio_cq.rear = ground arith in
            let (x, takes, items) = take_front-popped v flows h in
            (
              x ∷ [],
              popped e.audio_cq,
              rw (running, loud, ready-dequeue e.audio_cq ready, takes) refl,
              items,
              popped-IsValid v h,
              flows,
              sleepy,
              refl,
            )
      ]

  -- What the loop has taken and what still waits in the queue are what waited at first and what has
  -- been captured, in order.
  pub ticks-order :
      (e : Encoder) (ts : List Tick)
      → HasRoom e ts
      → (xs : List EncoderElement) × (d : Encoder) × (ticks e ts ≡ done (xs, d))
        × (xs ++ contents d.audio_cq ≡ contents e.audio_cq ++ captured ts)
  unfolding ticks
  ticks-order e [] room = ([], e, refl, sym (append-nil (contents e.audio_cq)))
  ticks-order e (capture a ∷ ts) (running, loud, sleepy, flows, v, room) =
      let q = e.audio_cq in
      let x = element a in
      let free : q.rear < q.maxsize = omega arith in
      let next = record e { audio_cq = pushed q x } in
      let (xs, d, runs, order) =
        ticks-order next ts (running, loud, sleepy, flows, pushed-IsValid x v free, omega arith) in
      (
        xs,
        d,
        rw (encode_audio-pushed e a running flows v free, runs) refl,
        order
            ∙ (ap (λ (l : List EncoderElement). l ++ captured ts) (contents-pushed x v free)
                ∙ append_assoc (contents q) (x ∷ []) (captured ts)),
      )
  ticks-order e (look ∷ ts) (running, loud, sleepy, flows, v, room) =
      let (ys, q, looks, items, v', flows', sleepy', same) =
        look-popped e running loud sleepy flows v in
      let (xs, d, runs, order) =
        ticks-order (record e { audio_cq = q }) ts
          (running, loud, sleepy', flows', v', omega (arith, room, same)) in
      (
        ys ++ xs,
        d,
        rw (looks, runs) refl,
        append_assoc ys xs (contents d.audio_cq)
            ∙ (ap (◌++◌ ys) order
                ∙ (sym (append_assoc ys (contents q) (captured ts))
                    ∙ ap (λ (l : List EncoderElement). l ++ captured ts) (sym items))),
      )

-- ===== src/Encoder/Filled.antt =====
-- The pictures that `Encoder::encodeAudioLoop` asks for, in the queue of the video.
use encoder_with_web_socket.Prelude.{
  ℕ, ◌+◌, ◌-◌, ◌*◌, ◌≤◌, ◌<◌, ◌≡◌, refl, sym, ap, ◌∙◌, ◌⊎◌, inl, inr, Bool, false, Option, none,
  some, List, [], ◌∷◌, ◌++◌, append_assoc, append-nil, arith, length, dec_lt,
}
use encoder_with_web_socket.Queue.{
  EncoderElement, QueueMsg, EncoderCq, Outcome, map_outcome, enqueue, done, fault,
}
use encoder_with_web_socket.Queue.Order.{
  IsValid as IsValidQueue, contents, pushed, enqueue-pushed, contents-pushed, pushed-IsValid,
}
use encoder_with_web_socket.Queue.Fault.{enqueue-fault}
use encoder_with_web_socket.Encoder.Codec.{Bytes, Answer}
use encoder_with_web_socket.Encoder.Audio.{AudioState}
use encoder_with_web_socket.Encoder.Framing.{IsValid}
use encoder_with_web_socket.Encoder.Sync.{
  SyncEvent, pictures, SyncStep, Piece, sync_turns, audio, captured,
}
use encoder_with_web_socket.Encoder.Pictures.{wanted, frame_times}
use encoder_with_web_socket.Encoder.Turns.{Ends, AllFit, buffers, sync_turns-deletions}
use encoder_with_web_socket.Encoder.Times.{sync_turns-pictures}

-- What `requestVideo` returns, and what it writes to `width` and `height`.
pub record Shot : Type 0 where
  pub address : ℕ
  pub width : ℕ
  pub height : ℕ

-- `videoElement`. Its `fake` is not set, and not read later.
abbrev pub video_element : Shot → EncoderElement
video_element x = record { buffer = x.address; size = x.width * x.height * 3; fake = false }

-- `shots k` is the answer to the call of `requestVideo` with the number `k`.
module _ (shots : ℕ → Shot) where
  abbrev pub and_on :
      Outcome (QueueMsg × EncoderCq) → (EncoderCq → Outcome EncoderCq) → Outcome EncoderCq
  and_on fault next = fault
  and_on (done (m, q)) next = next q

  -- `videoElement.data = requestVideo(&width, &height); … videoCQ.enqueue(videoElement);` for each
  -- picture of the events; the message of `enqueue` is dropped.
  unfoldable pub enqueues : ℕ → List SyncEvent → EncoderCq → Outcome EncoderCq
  enqueues k [] q = done q
  enqueues k (audio e ∷ es) q = enqueues k es q
  enqueues k (captured t ∷ es) q =
      and_on (enqueue q (video_element (shots k))) (λ d. enqueues (k + 1) es d)

  abbrev pub then_enqueues :
      EncoderCq → Outcome (Option SyncStep) → Outcome (Option (SyncStep × EncoderCq))
  then_enqueues q fault = fault
  then_enqueues q (done none) = done none
  then_enqueues q (done (some r)) = map_outcome (λ d. some (r, d)) (enqueues 0 r.0 q)

  -- The turns of the loop with the queue of the video, from which nobody takes meanwhile.
  unfoldable pub queued_turns :
      (ℕ → Bytes → Answer)
      → (ℕ → ℕ)
      → (ℕ → Bool)
      → List Piece
      → Bool
      → AudioState
      → ℕ
      → EncoderCq
      → Outcome (Option (SyncStep × EncoderCq))
  queued_turns codec rescale is_silent ps silent s v q =
      then_enqueues q (sync_turns codec rescale is_silent ps silent s v)

  -- The elements for pictures, from the number `k` on.
  abbrev pub elements : ℕ → List ℕ → List EncoderElement
  elements k [] = []
  elements k (t ∷ ts) = video_element (shots k) ∷ elements (k + 1) ts

  enqueues-room :
      (k : ℕ) (es : List SyncEvent) (q : EncoderCq)
      → IsValidQueue q
      → q.is_stop ≡ false
      → length (pictures es) ≤ q.maxsize - q.rear
      → (d : EncoderCq) × (enqueues k es q ≡ done d)
        × (contents d ≡ contents q ++ elements k (pictures es))
  unfolding enqueues
  enqueues-room k [] q v flows room = (q, refl, sym (append-nil (contents q)))
  enqueues-room k (audio e ∷ es) q v flows room = enqueues-room k es q v flows room
  enqueues-room k (captured t ∷ es) q v flows room =
      let x = video_element (shots k) in
      let free : q.rear < q.maxsize = omega arith in
      let (d, runs, order) =
        enqueues-room (k + 1) es (pushed q x) (pushed-IsValid x v free) flows (omega arith) in
      (
        d,
        rw (enqueue-pushed x v flows free) runs,
        order
            ∙ (ap (λ (l : List EncoderElement). l ++ elements (k + 1) (pictures es))
                  (contents-pushed x v free)
                ∙ append_assoc (contents q) (x ∷ []) (elements (k + 1) (pictures es))),
      )

  enqueues-fault :
      (k : ℕ) (es : List SyncEvent) (q : EncoderCq)
      → IsValidQueue q
      → q.is_stop ≡ false
      → q.maxsize - q.rear < length (pictures es)
      → enqueues k es q ≡ fault
  unfolding enqueues
  enqueues-fault k [] q v flows many = absurd (omega arith)
  enqueues-fault k (audio e ∷ es) q v flows many = enqueues-fault k es q v flows many
  enqueues-fault k (captured t ∷ es) q v flows many = elim (dec_lt q.rear q.maxsize) [
    | yes free ↦
        let x = video_element (shots k) in
        rw (enqueue-pushed x v flows free)
          (enqueues-fault (k + 1) es (pushed q x) (pushed-IsValid x v free) flows (omega arith))
    | no full ↦
        rw (enqueue-fault q (video_element (shots k)) flows v.ordered (omega (arith, v.in_array)))
          refl
  ]

  module _ (codec : ℕ → Bytes → Answer) (rescale : ℕ → ℕ) (is_silent : ℕ → Bool) where
    -- The pictures of the turns find room behind `rear` and are in the queue, behind what was in it
    -- and in order; or they do not, and the turns write outside the array of the queue.
    abbrev pub Fills : List Piece → Bool → AudioState → ℕ → EncoderCq → SyncStep → Type 0
    Fills ps silent s v q r =
        ((length (pictures r.0) ≤ q.maxsize - q.rear)
          × (d : EncoderCq) × (queued_turns codec rescale is_silent ps silent s v q
              ≡ done (some (r, d)))
          × (contents d ≡ contents q ++ elements 0 (pictures r.0)))
        ⊎ ((q.maxsize - q.rear < length (pictures r.0))
            × (queued_turns codec rescale is_silent ps silent s v q ≡ fault))

    Fills-turns :
        (ps : List Piece) (silent : Bool) (s : AudioState) (v : ℕ) (q : EncoderCq) (r : SyncStep)
        → IsValidQueue q
        → q.is_stop ≡ false
        → sync_turns codec rescale is_silent ps silent s v ≡ done (some r)
        → Fills ps silent s v q r
    unfolding queued_turns
    Fills-turns ps silent s v q r valid flows runs =
        elim (dec_lt (q.maxsize - q.rear) (length (pictures r.0))) [
          | yes many ↦ inr (many, rw (runs, enqueues-fault 0 r.0 q valid flows many) refl)
          | no few ↦
              let room : length (pictures r.0) ≤ q.maxsize - q.rear = omega arith in
              let (d, fills, order) = enqueues-room 0 r.0 q valid flows room in
              inl (room, d, rw (runs, fills) refl, order)
        ]

    -- If every element has the size of its bytes, a padded copy has room for them, the frame buffer is
    -- allocated and not full, and the queue of the video is valid and runs, and nobody takes from it
    -- meanwhile: the pictures that the turns of the loop ask for are those that are wanted for all the
    -- frames that they hand to the codec, in their order: one for each frame that is reached while the
    -- flag is down, at a rescaled time that the frame before did not have, and no other. If the cells
    -- behind `rear` are enough for them, the turns end without a fault, and the pictures are in the
    -- queue, behind what was in it and in order; if not, the turns write outside the queue's array.
    pub queued_turns-pictures :
        (ps : List Piece) (silent : Bool) (s : AudioState) (v : ℕ) (q : EncoderCq)
        → IsValid s
        → AllFit ps
        → IsValidQueue q
        → q.is_stop ≡ false
        → (r : SyncStep) × (sync_turns codec rescale is_silent ps silent s v ≡ done (some r))
          × (pictures r.0
              ≡ wanted codec rescale is_silent v (frame_times codec rescale is_silent r.0))
          × Fills ps silent s v q r
    queued_turns-pictures ps silent s v q valid fit sound flows =
        let (r, runs, asked) =
          sync_turns-pictures codec rescale is_silent ps silent s v valid fit in
        (r, runs, asked, Fills-turns ps silent s v q r sound flows runs)

    -- Under the same conditions, and if the pictures of the turns find room behind `rear`, the turns run
    -- without a fault: either all of them, with no error reported, a valid state behind them, and the
    -- buffer of every element and every padded copy deleted exactly once, in order; or up to one that
    -- reports exactly one error and ends the loop. If they find no room, the turns write outside the
    -- array of the queue.
    pub queued_turns-deletions :
        (ps : List Piece) (silent : Bool) (s : AudioState) (v : ℕ) (q : EncoderCq)
        → IsValid s
        → AllFit ps
        → IsValidQueue q
        → q.is_stop ≡ false
        → (r : SyncStep) × (sync_turns codec rescale is_silent ps silent s v ≡ done (some r))
          × Ends (buffers silent ps) r
          × Fills ps silent s v q r
    queued_turns-deletions ps silent s v q valid fit sound flows =
        let (r, runs, ends) =
          sync_turns-deletions codec rescale is_silent ps silent s v valid fit in
        (r, runs, ends, Fills-turns ps silent s v q r sound flows runs)

-- ===== src/Encoder/Framing/Frames.antt =====
-- The frame buffer of `encodeAudioImpl`, and what it means to cut up a piece.
use encoder_with_web_socket.Prelude.{
  take-append, slice, length-slice, drop_all, take_all, slice-to_end, ℕ, ◌+◌, ◌-◌, ◌≤◌, ◌<◌, ◌≡◌,
  refl, sym, ◌∙◌, List, [], ◌∷◌, ◌++◌, append_assoc, append-nil, arith, length, length-append, take,
  drop, length-take, length-drop,
}
use encoder_with_web_socket.Encoder.Codec.{Bytes, Event, frames}
use encoder_with_web_socket.Encoder.Audio.{AudioState, frame_size, copy_at, Step, finished}
use encoder_with_web_socket.Queue.{size}

take-copy_at :
    (to from : Bytes) (i : ℕ)
    → i ≤ length to
    → take (i + length from) (copy_at to i from) ≡ take i to ++ from
unfolding copy_at
take-copy_at to from i h = rw (← append_assoc (take i to) from (drop (i + length from) to)) (
    take-append (take i to ++ from) _ (i + length from)
      (rw length-append (omega (arith, length-take i to))))

length-copy_at :
    (to from : Bytes) (i : ℕ) → i + length from ≤ length to → length (copy_at to i from) ≡ length to
unfolding copy_at
length-copy_at to from i h =
    rw (length-append, length-append)
      (omega (arith, length-take i to, length-drop (i + length from) to))

-- The bytes that wait for a frame.
abbrev pub pending : AudioState → Bytes
pending s = take s.remained s.tmp

-- The frame buffer is as large as a frame, and not full.
pub record IsValid (s : AudioState) : Type 0 where
  pub allocated : length s.tmp ≡ frame_size s
  pub not_full : s.remained < frame_size s

abbrev pub joined : List (ℕ × Bytes) → Bytes
joined [] = []
joined ((pts, b) ∷ fs) = b ++ joined fs

-- Frames of `size` bytes, each `n` samples behind the one before, from time `p` up to time `q`.
abbrev pub Regular : ℕ → ℕ → ℕ → List (ℕ × Bytes) → ℕ → Type 0
Regular n size p [] q = p ≡ q
Regular n size p ((pts, b) ∷ fs) q = (pts ≡ p) × (length b ≡ size) × Regular n size (p + n) fs q

-- What a call that ends behind its loop has done with the bytes `rest`.
pub record Framed (s : AudioState) (rest : Bytes) (es : List Event) (t : AudioState) : Type 0 where
  pub valid : IsValid t
  pub samples : t.nb_samples ≡ s.nb_samples
  pub width : t.audio_bytes ≡ s.audio_bytes
  pub bytes : joined (frames es) ++ pending t ≡ pending s ++ rest
  pub regular : Regular s.nb_samples (frame_size s) s.frame_pts (frames es) t.frame_pts

abbrev pub Good : AudioState → Bytes → Step → Type 0
Good s rest r = r.2 ≡ finished → Framed s rest r.0 r.1

-- The frame buffer that a piece has filled, and the one that a piece has not filled.
abbrev pub filled : AudioState → Bytes → ℕ → AudioState
filled s pcm encoded = record s {
  tmp = copy_at s.tmp s.remained (slice pcm encoded (frame_size s - s.remained));
  remained = 0;
}

abbrev pub part : AudioState → Bytes → ℕ → AudioState
part s pcm encoded = record s {
  tmp = copy_at s.tmp s.remained (slice pcm encoded (length pcm - encoded));
  remained = s.remained + (length pcm - encoded);
}

pub tmp-filled :
    (s : AudioState) (pcm : Bytes) (encoded : ℕ)
    → IsValid s
    → encoded ≤ length pcm
    → frame_size s - s.remained ≤ length pcm - encoded
    → ((filled s pcm encoded).tmp ≡ pending s ++ slice pcm encoded (frame_size s - s.remained))
      × (length (filled s pcm encoded).tmp ≡ frame_size s)
tmp-filled s pcm encoded v h fits =
    let n : ℕ = frame_size s - s.remained in
    let piece = slice pcm encoded n in
    let l = length-slice encoded n pcm (omega arith) in
    let k = length-copy_at s.tmp piece s.remained (omega arith) in
    (
      sym (take_all (s.remained + length piece) (copy_at s.tmp s.remained piece) (omega arith))
          ∙ take-copy_at s.tmp piece s.remained (omega arith),
      k ∙ v.allocated,
    )

pub end-Framed :
    (s : AudioState) (pcm : Bytes) (encoded : ℕ)
    → IsValid s
    → encoded ≡ length pcm
    → Framed s (drop encoded pcm) [] s
end-Framed s pcm encoded v e = record {
  valid = v;
  samples = refl;
  width = refl;
  bytes = rw (drop_all encoded pcm (omega arith), append-nil (pending s)) refl;
  regular = refl;
}

pub part-Framed :
    (s : AudioState) (pcm : Bytes) (encoded : ℕ)
    → IsValid s
    → encoded ≤ length pcm
    → length pcm - encoded < frame_size s - s.remained
    → Framed s (drop encoded pcm) [] (part s pcm encoded)
part-Framed s pcm encoded v h short =
    let n : ℕ = length pcm - encoded in
    let piece = slice pcm encoded n in
    let l = length-slice encoded n pcm (omega arith) in
    let k = length-copy_at s.tmp piece s.remained (omega arith) in
    let e : s.remained + n ≡ s.remained + length piece = omega arith in
    record {
      valid = omega arith;
      samples = refl;
      width = refl;
      bytes =
          rw
            (
              e,
              take-copy_at s.tmp piece s.remained (omega arith),
              slice-to_end encoded n pcm (omega arith),
            )
            refl;
      regular = refl;
    }

-- ===== src/Encoder/Lives.antt =====
-- An encoder from its constructor to its destructor, over any calls in between.
use encoder_with_web_socket.Prelude.{
  ℕ, ◌+◌, ◌≡◌, refl, ap, length, arith, if◌then◌else◌, ◌⊎◌, inl, inr, Bool, true, false, List, [],
  ◌∷◌, Bool-cases,
}
use encoder_with_web_socket.Encoder.State.{already_init_error, already_stop_error}
use encoder_with_web_socket.Encoder.Setup.{
  EncoderContext, Owned, Answers, Work, Init, is_enabled, nothing_owned, only_io, clear_pointers,
  build, go, fail,
}
use encoder_with_web_socket.Encoder.Life.{
  Encoder, after_build, initialize, Release, stop, set_silent,
}
use encoder_with_web_socket.Encoder.Cycle.{blocks-owned, initialize_again}
use encoder_with_web_socket.Queue

-- `Encoder()`, on the memory of the static variable of Collabo.cpp, which is zero; the context is
-- that of zeros.
unfoldable pub new_encoder : EncoderContext → Encoder
new_encoder zeros = record {
  stopped = true;
  context = zeros;
  owned = nothing_owned;
  borrowed = record { video_stream = false; audio_stream = false };
  has_header = false;
  video_cq = Queue.new true;
  audio_cq = Queue.new true;
  video_frame_pts = 0;
  audio_frame_pts = 0;
  remained_audio_size = 0;
}

-- `~Encoder()`
unfoldable pub destroyed : Encoder → List Release × Encoder
destroyed e = let (s, rs, e') = stop e in (rs, e')

pub data Call : Type 0 where
  call_initialize : Answers → EncoderContext → Call
  call_stop : Call
  call_set_silent : Bool → Call

abbrev pub call : Encoder → Call → Encoder
call e (call_initialize a c) = (initialize a c e).2
call e call_stop = (stop e).2
call e (call_set_silent b) = set_silent b e

abbrev pub calls : Encoder → List Call → Encoder
calls e [] = e
calls e (c ∷ cs) = calls (call e c) cs

-- A stopped encoder holds nothing that `initialize` could lose but `ioCtx`.
abbrev IsClean : Encoder → Type 0
IsClean e = (e.stopped ≡ false) ⊎ (e.owned ≡ only_io e.owned.io_ctx)

after_build-running :
    (e : Encoder) (c : EncoderContext) (i : Init) → (after_build e c i).2.stopped ≡ false
after_build-running e c (go w) = refl
after_build-running e c (fail s w) = refl

initialize-IsClean :
    (a : Answers) (c : EncoderContext) (e : Encoder) → IsClean e → IsClean (initialize a c e).2
unfolding initialize
initialize-IsClean a c e h = elim (Bool-cases e.stopped) [
  | inl s ↦
      let q : initialize a c e ≡ after_build e c (build a c (clear_pointers e.owned)) = simp s in
      rw q (inl (after_build-running e c (build a c (clear_pointers e.owned))))
  | inr s ↦ let q : initialize a c e ≡ (already_init_error, [], e) = simp s in rw q h
]

stop-IsClean : (e : Encoder) → IsClean e → IsClean (stop e).2
unfolding stop
stop-IsClean e h = elim (Bool-cases e.stopped) [
  | inl s ↦ let q : stop e ≡ (already_stop_error, [], e) = simp s in rw q h
  | inr s ↦ inr (simp s refl)
]

call-IsClean : (e : Encoder) (c : Call) → IsClean e → IsClean (call e c)
unfolding set_silent
call-IsClean e (call_initialize a c) h = initialize-IsClean a c e h
call-IsClean e call_stop h = stop-IsClean e h
call-IsClean e (call_set_silent true) h = h
call-IsClean e (call_set_silent false) h = h

calls-IsClean : (cs : List Call) (e : Encoder) → IsClean e → IsClean (calls e cs)
calls-IsClean [] e h = h
calls-IsClean (c ∷ cs) e h = calls-IsClean cs (call e c) (call-IsClean e c h)

destroyed-owned : (e : Encoder) → IsClean e → (destroyed e).1.owned ≡ only_io e.owned.io_ctx
unfolding destroyed stop
destroyed-owned e h = elim (Bool-cases e.stopped) [
  | inl s ↦ simp s (elim h [ inl r ↦ cc | inr o ↦ o ])
  | inr s ↦ simp s
]

pub calls-destroyed :
    (zeros : EncoderContext) (cs : List Call)
    → let e = calls (new_encoder zeros) cs in
      ((e.stopped ≡ false) ⊎ (e.owned ≡ only_io e.owned.io_ctx))
      × ((destroyed e).1.owned ≡ only_io e.owned.io_ctx)
unfolding new_encoder
calls-destroyed zeros cs =
    let h = calls-IsClean cs (new_encoder zeros) (inr refl) in
    (h, destroyed-owned (calls (new_encoder zeros) cs) h)

abbrev pub bit : Bool → ℕ
bit true = 1
bit false = 0

-- How many objects of `avio_alloc_context` the calls lose: `initialize` sets `ioCtx` to null.
abbrev pub loses : Encoder → Call → ℕ
loses e (call_initialize a c) = if e.stopped then bit e.owned.io_ctx else 0
loses e call_stop = 0
loses e (call_set_silent b) = 0

abbrev pub losses : Encoder → List Call → ℕ
losses e [] = 0
losses e (c ∷ cs) = loses e c + losses (call e c) cs

-- A call of `initialize` and one of `stop`, in turn.
abbrev pub cycles : List (Answers × EncoderContext) → List Call
cycles [] = []
cycles ((a, c) ∷ js) = call_initialize a c ∷ call_stop ∷ cycles js

-- Each `initialize` succeeds, and `avio_alloc_context` gives it an object.
abbrev pub AllOpen : List (Answers × EncoderContext) → Type 0
AllOpen [] = Unit {0}
AllOpen ((a, c) ∷ js) =
    (a.alloc_io ≡ true)
    × ((w : Work) × (build a c (clear_pointers nothing_owned) ≡ go w))
    × AllOpen js

opened-io :
    (a : Answers) (c : EncoderContext) (w : Work)
    → build a c (clear_pointers nothing_owned) ≡ go w
    → w.owned.io_ctx ≡ a.alloc_io
unfolding build clear_pointers
opened-io a c w h =
    let o =
      blocks-owned a (is_enabled a.format_has_video c.video_codec_name)
        (is_enabled a.format_has_audio c.audio_codec_name) w h in
    rw o refl

cycle_lem :
    (a : Answers) (c : EncoderContext) (e : Encoder) (w : Work) (io : Bool)
    → e.stopped ≡ true
    → e.owned ≡ only_io io
    → build a c (clear_pointers nothing_owned) ≡ go w
    → let d = (stop (initialize a c e).2).2 in
      (d.stopped ≡ true) × (d.owned ≡ only_io w.owned.io_ctx)
unfolding stop
cycle_lem a c e w io halted o ok = rw (initialize_again a c e w io halted o ok) (refl, refl)

cycles_lem :
    (js : List (Answers × EncoderContext)) (e : Encoder) (io : Bool)
    → e.stopped ≡ true
    → e.owned ≡ only_io io
    → AllOpen js
    → losses e (cycles js) + bit (calls e (cycles js)).owned.io_ctx ≡ bit io + length js
cycles_lem [] e io halted o opens = rw o (omega arith)
cycles_lem ((a, c) ∷ js) e io halted o (alloc, (w, ok), opens) =
    let d = call (call e (call_initialize a c)) call_stop in
    let (h, q) = cycle_lem a c e w io halted o ok in
    let i = cycles_lem js d w.owned.io_ctx h q opens in
    let j = rw (opened-io a c w ok, alloc) at i in grind (arith, j, halted, o)

-- In a life of one cycle of `initialize` and `stop` behind the other, each of which succeeds and gets an
-- object from `avio_alloc_context`, every cycle but the last loses its object, and the encoder still
-- holds the last one behind the destructor.
pub cycles-losses :
    (zeros : EncoderContext) (a : Answers) (c : EncoderContext)
    (js : List (Answers × EncoderContext))
    → AllOpen ((a, c) ∷ js)
    → let e = new_encoder zeros in
      let d = calls e (cycles ((a, c) ∷ js)) in
      losses e (cycles ((a, c) ∷ js)) + bit (destroyed d).1.owned.io_ctx ≡ length js + 1
unfolding new_encoder
cycles-losses zeros a c js opens =
    let e = new_encoder zeros in
    let d = calls e (cycles ((a, c) ∷ js)) in
    let i = cycles_lem ((a, c) ∷ js) e false refl refl opens in
    let q = ap (λ (o : Owned). bit o.io_ctx) (calls-destroyed zeros (cycles ((a, c) ∷ js))).1 in
    omega (arith, i, q)

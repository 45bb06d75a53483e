-- ===== src/Collabo/Images.antt =====
-- The pictures of the compressor on their way to the clients of Collabo.cpp.
use encoder_with_web_socket.Prelude.{
  ℕ, ◌≡◌, refl, sym, inl, inr, Bool, true, false, Option, none, some, List, [], ◌∷◌, ◌++◌,
  append_assoc, arith, ◌==◌, if◌then◌else◌, Bool-cases, Option-cases,
}
use encoder_with_web_socket.Collabo.Clients.{
  Client, find_ws, find_mcode, insert, erase_ws, replace_ws,
}
use encoder_with_web_socket.Collabo.Wire.{has_role, Bytes, image_init_message, image_message}
use encoder_with_web_socket.Collabo.Session.{
  Session, Event, IsSuited, admit, suited, dispatch, on_msg, send, send_full, setting,
}
use encoder_with_web_socket.Collabo.Stream.{send_members}
use encoder_with_web_socket.Jpeg.Loop.{
  Event as JpegEvent, image_message as image_body, Captured, Compressor, TjCall, TjResult, tj_call,
  round, image_init, deleted, image,
}
use encoder_with_web_socket.Jpeg.{whole_region}
use encoder_with_web_socket.Jpeg.Rounds.{round-whole}
use Prim.Native.String.{String}

-- `sendImageInit`
unfoldable pub send_image_init : ℕ → ℕ → List Client → List Event
send_image_init width height cs = send_members (image_init_message width height) cs

-- `sendImage`
unfoldable pub send_image : Bytes → List Client → List Event
send_image buf cs = send_members (image_message buf) cs

-- What the callbacks that `startStreaming` gives to the compressor make of its events.
abbrev pub deliver : List Client → List JpegEvent → List Event
deliver cs [] = []
deliver cs (image_init w h ∷ es) = send_image_init w h cs ++ deliver cs es
deliver cs (image m ∷ es) = send_image m cs ++ deliver cs es
deliver cs (deleted a ∷ es) = deliver cs es

deliver-append :
    (cs : List Client) (es fs : List JpegEvent)
    → deliver cs (es ++ fs) ≡ deliver cs es ++ deliver cs fs
deliver-append cs [] fs = refl
deliver-append cs (image_init w h ∷ es) fs =
    rw (deliver-append cs es fs)
      (sym (append_assoc (send_image_init w h cs) (deliver cs es) (deliver cs fs)))
deliver-append cs (image m ∷ es) fs =
    rw (deliver-append cs es fs)
      (sym (append_assoc (send_image m cs) (deliver cs es) (deliver cs fs)))
deliver-append cs (deleted a ∷ es) fs = deliver-append cs es fs

abbrev pub is_send_full : Event → Bool
is_send_full send_full = true
is_send_full _ = false

-- What the events of a handler do to the compressor's flag `fullFlag`.
abbrev pub asked : List Event → Compressor → Compressor
asked [] c = c
asked (e ∷ es) c = asked es (if is_send_full e then record c { full_flag = true } else c)

asked-append : (es fs : List Event) (c : Compressor) → asked (es ++ fs) c ≡ asked fs (asked es c)
asked-append [] fs c = refl
asked-append (e ∷ es) fs c =
    asked-append es fs (if is_send_full e then record c { full_flag = true } else c)

pub find-ws : (ws : ℕ) (k : Client) (cs : List Client) → find_ws ws cs ≡ some k → k.ws ≡ ws
unfolding find_ws
find-ws ws k [] e = cc
find-ws ws k (c ∷ cs) e = elim (Bool-cases (c.ws == ws)) [
  | inl h ↦ let e' = rw h at e in ground arith
  | inr h ↦ find-ws ws k cs (rw h at e)
]

module _ (is_suited : IsSuited) (now : ℕ) where
  pub admit-asked :
      (k : Client) (s : Session) (c : Compressor)
      → s.mode ≡ 1
      → asked (admit now k s).0 c ≡ record c { full_flag = true }
  unfolding admit
  admit-asked k s c e = elim (Option-cases (find_mcode k.mcode s.clients)) [
    | inl alone ↦ elim (Bool-cases (s.first_count == 2)) [
      | inl begun ↦ simp (alone, begun, e) refl
      | inr not_begun ↦ simp (alone, not_begun, e) refl
    ]
    | inr (d, other) ↦ elim (Bool-cases (s.first_count == 2)) [
      | inl begun ↦ simp (other, begun, e) refl
      | inr not_begun ↦ simp (other, not_begun, e) refl
    ]
  ]

  pub admit-members :
      (k : Client) (s : Session)
      → find_mcode k.mcode (erase_ws k.ws s.clients) ≡ none
      → (admit now k s).1.clients ≡ k ∷ erase_ws k.ws s.clients
  unfolding admit replace_ws insert
  admit-members k s e = rw (insert, e) refl

  -- A member that the database knows with a role, in the mode of images, is sent the whole of the next frame,
  -- however little of it has changed, behind the answer to its SETTING, if no other client has its
  -- `mcode` and `tjCompress2` makes a jpeg of the frame.
  setting-image :
      (tj_compress : TjCall → TjResult) (ws : ℕ) (mcode mscode custom name : String) (k : Client)
      (r : Bool × Bool × Option ℕ) (s : Session) (c : Compressor) (f : Captured) (j : Bytes)
      → s.mode ≡ 1
      → find_ws ws s.clients ≡ some k
      → is_suited mcode mscode ≡ some r
      → has_role (suited k mcode mscode custom name r) ≡ true
      → find_mcode mcode (erase_ws ws s.clients) ≡ none
      → tj_call tj_compress (whole_region f.width f.height) f
        ≡ record { failed = false; jpeg = some j }
      → (es : List Event) × (t : Session) × (before : List Event) × (after : List Event) × (on_msg
            is_suited now ws
            (setting mcode mscode custom name)
            s
          ≡ some (es, t))
        × (deliver t.clients (round tj_compress (asked es c) f).0
            ≡ before
              ++ send ws (image_message (image_body c.seq (whole_region f.width f.height) j))
                ∷ after)
  unfolding on_msg dispatch send_image
  setting-image tj_compress ws mcode mscode custom name k r s c f j mode there known role alone
        made =
      let sock = find-ws ws k s.clients there in
      let n = suited k mcode mscode custom name r in
      let (es, t) = admit now n s in
      let d = record c { full_flag = true } in
      let (head, out, answered) = round-whole tj_compress d f j (inr (inl refl)) made in
      let body = image_body c.seq (whole_region f.width f.height) j in
      let others = erase_ws k.ws s.clients in
      let list = admit-members n s (rw sock alone) in
      (
        es,
        t,
        deliver t.clients head,
        send_members (image_message body) others ++ [],
        rw (on_msg, there, dispatch, known) refl,
        rw
            (
              admit-asked n s c mode,
              out,
              deliver-append t.clients head (image body ∷ []),
              list,
              sock,
              role,
            )
            refl,
      )

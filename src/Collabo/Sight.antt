-- ===== src/Collabo/Sight.antt =====
-- From the screen to a client: what a member that has logged in at Collabo.cpp sees.
use encoder_with_web_socket.Prelude.{
  ℕ, ◌≡◌, refl, inl, inr, Bool, true, Option, none, some, List, [], ◌∷◌, arith, ◌==◌, if◌then◌else◌,
}
use encoder_with_web_socket.Collabo.Clients.{Client, find_ws, find_mcode, erase_ws}
use encoder_with_web_socket.Collabo.Wire.{
  Bytes, decodeimage, image_init_message, image_message, has_role,
}
use encoder_with_web_socket.Collabo.Session.{
  Session, Event, IsSuited, admit, suited, dispatch, on_msg, setting,
}
use encoder_with_web_socket.Collabo.Images.{deliver, asked, find-ws, admit-asked, admit-members}
use encoder_with_web_socket.Collabo.Inbox.{UniqueSockets, inbox, wire, inbox-deliver}
use encoder_with_web_socket.Jpeg.Canvas.{Pixel, Canvas, paint, view}
use encoder_with_web_socket.Jpeg.Viewer.{fresh-Shows}
use encoder_with_web_socket.Jpeg.Viewer.Part.{IsCodec, Shows, IsSized}
use encoder_with_web_socket.Jpeg.Loop.{
  Event as JpegEvent, Captured, Compressor, TjCall, TjResult, round, run, image_init, deleted,
  image,
}
use Prim.Native.String.{String}
use encoder_with_web_socket.Collabo.Directory.{find-erase_self, erase-UniqueSockets}

-- A client paints the images among its messages, which it tells by their first byte.
abbrev pub look_at : (Bytes → Canvas) → Bytes → Canvas → Canvas
look_at decode [] canvas = canvas
look_at decode (b ∷ body) canvas = if b == decodeimage then paint decode body canvas else canvas

abbrev pub look : (Bytes → Canvas) → List Bytes → Canvas → Canvas
look decode [] canvas = canvas
look decode (m ∷ ms) canvas = look decode ms (look_at decode m canvas)

look-wire :
    (decode : Bytes → Canvas) (es : List JpegEvent) (canvas : Canvas)
    → look decode (wire es) canvas ≡ view decode es canvas
unfolding image_message image_init_message
look-wire decode [] canvas = refl
look-wire decode (image_init w h ∷ es) canvas = look-wire decode es canvas
look-wire decode (image m ∷ es) canvas = look-wire decode es (paint decode m canvas)
look-wire decode (deleted a ∷ es) canvas = look-wire decode es canvas

-- What a new member hears is what the compressor sends.
member-inbox :
    (k : Client) (others : List Client) (es : List JpegEvent)
    → has_role k ≡ true
    → UniqueSockets (k ∷ others)
    → inbox k.ws (deliver (k ∷ others) es) ≡ wire es
unfolding find_ws
member-inbox k others es role u =
    let here : (k.ws == k.ws) ≡ true = ground arith in
    rw (inbox-deliver k.ws (k ∷ others) es u, find_ws, here) (rw role refl)

-- A member that logs in with a role in the mode of images, and paints each image that it is sent at its
-- place, sees behind the next round the frame of that round at every pixel, whatever it saw before and
-- whatever the loop held. No other client has its `mcode`, the sockets of the list are different, the
-- sizes are below 2³², and `tjCompress2` makes a jpeg of what it reads.
pub login-Shows :
    (is_suited : IsSuited) (now ws : ℕ) (mcode mscode custom name : String) (k : Client)
    (r : Bool × Bool × Option ℕ) (s : Session) (tj_compress : TjCall → TjResult)
    (decode : Bytes → Canvas) (Near : Pixel → Pixel → Type 0) (c : Compressor) (f : Captured)
    (canvas : Canvas)
    → s.mode ≡ 1
    → find_ws ws s.clients ≡ some k
    → is_suited mcode mscode ≡ some r
    → has_role (suited k mcode mscode custom name r) ≡ true
    → find_mcode mcode (erase_ws ws s.clients) ≡ none
    → UniqueSockets s.clients
    → IsCodec tj_compress decode Near
    → IsSized f
    → (es : List Event) × (t : Session) × (on_msg is_suited now ws
          (setting mcode mscode custom name)
          s
        ≡ some (es, t))
      × Shows Near
          (look decode (inbox ws (deliver t.clients (round tj_compress (asked es c) f).0)) canvas)
          f
unfolding on_msg dispatch run
login-Shows is_suited now ws mcode mscode custom name k r s tj_compress decode Near c f canvas mode
      there known role alone unique codec size =
    let sock = find-ws ws k s.clients there in
    let n = suited k mcode mscode custom name r in
    let (es, t) = admit now n s in
    let others = erase_ws k.ws s.clients in
    let list = admit-members is_suited now n s (rw sock alone) in
    let u : UniqueSockets (n ∷ others) =
      (find-erase_self k.ws s.clients unique, erase-UniqueSockets k.ws s.clients unique) in
    let whole = record c { full_flag = true } in
    let events = (round tj_compress whole f).0 in
    (
      es,
      t,
      rw (on_msg, there, dispatch, known) refl,
      rw
          (
            admit-asked is_suited now n s c mode,
            list,
            ← sock,
            member-inbox n others events role u,
            look-wire decode events canvas,
          )
          (fresh-Shows tj_compress decode Near whole [] f canvas codec (inr (inl refl)) size),
    )

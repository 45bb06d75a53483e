-- ===== src/Collabo/Stream.antt =====
-- `readPacket`, and what `startStreaming` asks of the encoder and of the compressor.
use encoder_with_web_socket.Prelude.{
  ℕ, ◌+◌, ◌≤◌, ◌≡◌, refl, none, some, List, [], ◌∷◌, ◌++◌, arith, ltb, leb, ◌==◌, if◌then◌else◌,
  length, length-append,
}
use encoder_with_web_socket.Collabo.Clients.{Client}
use encoder_with_web_socket.Collabo.Wire.{Bytes, video_init_message, video_packet_message, has_role}
use encoder_with_web_socket.Collabo.Session.{Session, Event, Result, send}

-- `static uint8_t header[10000]`
abbrev pub header_capacity : ℕ
header_capacity = 10000

-- A message to the clients that have a role.
abbrev pub send_members : Bytes → List Client → List Event
send_members m [] = []
send_members m (c ∷ cs) = (if has_role c then send c.ws m ∷ [] else []) ++ send_members m cs

-- `sendVideoPktAll`, at the time `now`.
abbrev pub send_video_packet : ℕ → Bytes → List Client → List Event
send_video_packet now packet cs = send_members (video_packet_message now packet) cs

-- `sendVideoInitMsgAll`, at the time `now`.
abbrev pub send_video_init : ℕ → Session → Bytes → List Event
send_video_init now s header =
    send_members (video_init_message now s.video_enabled s.audio_enabled s.width s.height header)
      s.clients

-- `readPacket`, to which the muxer hands what it has written, at the time `now`; `none` if it writes
-- past the array `header`.
unfoldable pub read_packet : ℕ → Bytes → Session → Result
read_packet now packet s =
    let header = s.header ++ packet in
    let s' = record s { header = header; first_count = s.first_count + 1 } in
    if ltb s.first_count 2
    then (if leb (length header) header_capacity
        then some ((if s.first_count + 1 == 2 then send_video_init now s header else []), s')
        else none)
    else some (send_video_packet now packet s.clients, s)

-- The packets of a stream, each with its time.
unfoldable pub read_packets : List (ℕ × Bytes) → Session → Result
read_packets [] s = some ([], s)
read_packets ((now, p) ∷ ps) s = elim (read_packet now p s) [
  | none ↦ none
  | some (es, s') ↦ elim (read_packets ps s') [ none ↦ none | some (fs, t) ↦ some (es ++ fs, t) ]
]

-- The messages of the packets behind the header.
abbrev pub packet_sends : List (ℕ × Bytes) → List Client → List Event
packet_sends [] cs = []
packet_sends ((now, p) ∷ ps) cs = send_members (video_packet_message now p) cs ++ packet_sends ps cs

read_packet-late :
    (now : ℕ) (p : Bytes) (s : Session)
    → s.first_count ≡ 2
    → read_packet now p s ≡ some (send_members (video_packet_message now p) s.clients, s)
unfolding read_packet
read_packet-late now p s e = ground arith

read_packets-late :
    (ps : List (ℕ × Bytes)) (s : Session)
    → s.first_count ≡ 2
    → read_packets ps s ≡ some (packet_sends ps s.clients, s)
unfolding read_packets
read_packets-late [] s e = refl
read_packets-late ((now, p) ∷ ps) s e =
    rw (read_packet-late now p s e, read_packets) (rw (read_packets-late ps s e) refl)

read_packet-first :
    (now : ℕ) (p : Bytes) (s : Session)
    → s.first_count ≡ 0
    → s.header ≡ []
    → length p ≤ header_capacity
    → read_packet now p s ≡ some ([], record s { header = p; first_count = 1 })
unfolding read_packet
read_packet-first now p s z e h = ground arith

read_packet-second :
    (now : ℕ) (p1 p2 : Bytes) (s : Session)
    → length (p1 ++ p2) ≤ header_capacity
    → read_packet now p2 (record s { header = p1; first_count = 1 })
      ≡ some (
        send_members
            (video_init_message now s.video_enabled s.audio_enabled s.width s.height (p1 ++ p2))
            s.clients,
        record s { header = p1 ++ p2; first_count = 2 },
      )
unfolding read_packet
read_packet-second now p1 p2 s h = ground arith

-- The first two packets of a new stream, if they fit the 10000 bytes, are kept as its header, and
-- the second is answered by one message with all of it to every member; every later packet goes to
-- every member, and is not kept.
pub read_packets_lem :
    (t1 t2 : ℕ) (p1 p2 : Bytes) (ps : List (ℕ × Bytes)) (s : Session)
    → s.first_count ≡ 0
    → s.header ≡ []
    → length (p1 ++ p2) ≤ header_capacity
    → read_packets ((t1, p1) ∷ (t2, p2) ∷ ps) s
      ≡ some (
        send_members
              (video_init_message t2 s.video_enabled s.audio_enabled s.width s.height (p1 ++ p2))
              s.clients
            ++ packet_sends ps s.clients,
        record s { header = p1 ++ p2; first_count = 2 },
      )
unfolding read_packets
read_packets_lem t1 t2 p1 p2 ps s z e h =
    let s2 = record s { header = p1 ++ p2; first_count = 2 } in
    rw (read_packet-first t1 p1 s z e (omega (arith, h, length-append p1 p2)), read_packets)
      (rw (read_packet-second t2 p1 p2 s h, read_packets) (rw (read_packets-late ps s2 refl) refl))

-- ===== src/Collabo/Wire.antt =====
-- The binary messages to the clients, as the `memcpy`s of Collabo.cpp lay them out.
use encoder_with_web_socket.Prelude.{
  le_bytes, codes, ℕ, ◌+◌, ◌*◌, Bool, true, false, none, some, List, [], ◌∷◌, ◌++◌, if◌then◌else◌,
  length,
}
use encoder_with_web_socket.Collabo.Clients.{Client}
use Prim.Native.String.{String}

abbrev pub Bytes : Type 0
Bytes = List ℕ

-- `enum STCMSG`
abbrev pub initvideo : ℕ
initvideo = 0

abbrev pub decodevideo : ℕ
decodevideo = 1

abbrev pub initimage : ℕ
initimage = 2

abbrev pub decodeimage : ℕ
decodeimage = 3

abbrev pub authprocess : ℕ
authprocess = 4

abbrev pub chiefprocess : ℕ
chiefprocess = 5

abbrev pub accessmemberprocess : ℕ
accessmemberprocess = 6

abbrev pub connectedmemberinfoprocess : ℕ
connectedmemberinfoprocess = 7

abbrev pub flag : Bool → ℕ
flag true = 1
flag false = 0

-- `sendVideoInitMsg` and `sendVideoInitMsgAll`, at the time `now` in milliseconds.
unfoldable pub video_init_message : ℕ → Bool → Bool → ℕ → ℕ → Bytes → Bytes
video_init_message now video audio width height header =
    initvideo
    ∷ (le_bytes 8 now
        ++ (flag video ∷ flag audio ∷ (le_bytes 4 width ++ (le_bytes 4 height ++ header))))

-- `sendVideoPktAll`
unfoldable pub video_packet_message : ℕ → Bytes → Bytes
video_packet_message now packet = decodevideo ∷ (le_bytes 8 now ++ packet)

-- `sendImageInit`
unfoldable pub image_init_message : ℕ → ℕ → Bytes
image_init_message width height = initimage ∷ (le_bytes 4 width ++ le_bytes 4 height)

-- `sendImage`, for the bytes that the compressor has put behind the first.
unfoldable pub image_message : Bytes → Bytes
image_message rest = decodeimage ∷ rest

-- The answer to AUTHORITY.
unfoldable pub auth_message : Client → Bytes
auth_message c =
    authprocess ∷ flag c.authority ∷ (le_bytes 4 (length (codes c.mcode)) ++ codes c.mcode)

-- The answer to CHIEF.
unfoldable pub chief_message : String → String → Bytes
chief_message src dst =
    chiefprocess
    ∷ (le_bytes 4 (length (codes src))
        ++ (le_bytes 4 (length (codes dst)) ++ (codes src ++ codes dst)))

-- What a member list says of one client.
unfoldable pub member : Client → Bytes
member c =
    flag c.authority
    ∷ flag c.chief
    ∷ (le_bytes 4 (length (codes c.mcode))
        ++ (le_bytes 4 (length (codes c.custom))
            ++ (le_bytes 4 (length (codes c.name))
                ++ (codes c.mcode ++ (codes c.custom ++ codes c.name)))))

-- The alert to all that a member has come.
unfoldable pub access_message : Client → Bytes
access_message c = accessmemberprocess ∷ member c

abbrev pub has_role : Client → Bool
has_role c = elim c.role [ none ↦ false | some r ↦ true ]

-- `mcodeSizes + customSizes + nameSizes`
unfoldable pub text_sizes : List Client → ℕ
text_sizes [] = 0
text_sizes (c ∷ cs) =
    (if has_role c
      then length (codes c.mcode) + length (codes c.custom) + length (codes c.name)
      else 0)
    + text_sizes cs

-- The number of bytes that are allocated for the member list, and sent.
unfoldable pub list_size : List Client → ℕ
unfolding text_sizes
list_size cs = 1 + text_sizes cs + 14 * length cs

-- The bytes of it that are written.
unfoldable pub members : List Client → Bytes
members [] = []
members (c ∷ cs) = (if has_role c then member c else []) ++ members cs

unfoldable pub list_message : List Client → Bytes
unfolding members
list_message cs = connectedmemberinfoprocess ∷ members cs

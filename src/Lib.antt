-- ===== src/Lib.antt =====
-- A verification library for the collaboration server: an emulator shares its screen and its sound
-- with clients over web sockets, and the clients send back mouse, keyboard and rights.
--
-- The parts, and how they work together
--   The emulator (test_vl.c, test_collabo.h) starts the server (Collabo.cpp), which keeps the list of
--   clients. A message of a client moves the mouse, presses a key, hands rights on, logs in or changes
--   the mode. The first client makes the host start the streams, the last one makes it stop them. In
--   the video mode the encoder (Encoder.cpp) takes frames and sound out of queues (EncoderCQ.cpp), and
--   hands what the muxer writes to the server; in the image mode the compressor (JpegCompressor.cpp)
--   sends the changed part of the screen, and the encoder the sound only. Who may log in, and with
--   which rights, the server asks a database (MySQLConnector.cpp, Base64.cpp); a thread of its own
--   (AgentManager.cpp) tells an agent which meeting is on.
--
-- Which file models what
--   Prelude and its children: the names of the library that all files use; `length`, `take`, `slice`
--     and the bytes of a number on the native numbers.
--   Queue: EncoderCQ.hpp and EncoderCQ.cpp. `EncoderCq` has the fields of the class but its locks, and
--     `enqueue`, `dequeue`, `clear`, `size`, `start`, `stop` are its methods; `take_front` is the part of
--     `dequeue` behind its wait. An access outside the array is `fault`. Queue/Fifo has the runs, as
--     sequences of calls in the order in which the locks let them through, and the specification;
--     Queue/Order the invariant, Queue/Refine the refinement, Queue/Fault what happens at the end of
--     the array.
--   Jpeg: JpegCompressor.cpp. `scan_row` and `scan_rows` are the two loops of the comparison, and
--     `changed_region` the rectangle that they find; Jpeg/Loop has `round`, one turn of the loop of
--     `compressJpegLoop`, and runs of it with `sendFull` and `stop` in between. Jpeg/Box and Jpeg/Frame
--     are about the rectangle, Jpeg/Rounds about buffers and whole frames, Jpeg/Numbers about messages,
--     Jpeg/Failed about errors. Jpeg/Canvas has a client that paints what it is sent, and Jpeg/Viewer
--     compares its picture with the frames. Jpeg/Threads has the object with its constructor,
--     destructor, `initialize`, `stop` and `sendFull` and the threads that share its flags, whose turns
--     come in any order; Jpeg/Threads/Stops is about them.
--   Encoder: Encoder.hpp and Encoder.cpp. Encoder/Setup has the blocks of `initialize` in their order
--     with their early returns; Encoder/Life `initialize`, `stop`, `isStop`, `setSilent`, `encodeAudio`;
--     Encoder/Codec and Encoder/Audio `encodeAudioImpl`; Encoder/Framing, Encoder/Errors,
--     Encoder/Cycle and Encoder/Launches are about them, and Encoder/Lives has the constructor and the
--     destructor. Encoder/Video has `encodeVideoImpl` and the turns of `encodeVideoLoop`, Encoder/Sound
--     and Encoder/Sync those of `encodeAudioLoop` for the sound alone and for the sound with pictures;
--     Encoder/Screen, Encoder/Pieces, Encoder/Flow, Encoder/Clock, Encoder/Pictures, Encoder/Turns and
--     Encoder/Times are about them, Encoder/Filled puts the pictures into the queue of the video, and Encoder/Pipe and Encoder/Delivery about the sound from
--     `encodeAudio` through the queue to the codec. `stops` is a call of `loopStop`, which
--     Encoder/Stopping has with what it makes of the process.
--   Collabo: Collabo.cpp. Collabo/Clients has the container with its two indexes, Collabo/Wire the
--     binary messages, Collabo/Session the handlers of `clbStart`, Collabo/Stream `readPacket`, and
--     Collabo/Streams `startStreaming`, `stopStreaming`, `setSilent` and `encodeAudio`; Collabo/Rights
--     and Collabo/Roster are about the handlers, Collabo/Unique, Collabo/Sockets,
--     Collabo/Streaming and Collabo/Running about whole sessions, with Collabo/Kept for what every handler leaves alone.
--     Collabo/Stored follows the rights from the handlers into the database. Collabo/Failure has
--     `encoderStateCallback`, and follows an error that it is handed to the emulator. Collabo/Server has
--     WebSocketServer.cpp, and `clbStart` from the start of the server on. Collabo/Images has
--     `sendImageInit` and `sendImage` and takes the events of the compressor to the clients;
--     Collabo/Inbox is about what each client hears, Collabo/Sight about what it sees, Collabo/Directory
--     about the member list without its order, as a quotient, and Collabo/Overlap about the compressor between the last client and the next.
--   Mysql: MySQLConnector.cpp. Mysql/Statements has the texts of the statements and the buffers they
--     are put together from, Mysql/Suited `isSuited` and `getVMInfo`, Mysql/Change `changeAuth` and
--     `changeChief`; Mysql/Buffers, Mysql/Quoting and Mysql/Rights are about them.
--   Base64: Base64.cpp, over the laws of the iterators of boost.
--   Agent: AgentManager.cpp, as turns of the loop of `manageImpl` with the answers of the sockets;
--     Agent/Secret is about one dialogue, Agent/Sockets and Agent/Reports about the whole loop.
--   RunState: test_vl.c, from the table of transitions to `runstate_set`; RunState/Requests has the
--     requests of devices and signals, RunState/MainLoop `main_loop_should_exit`.
--   Emulator: test_collabo.h, the functions that the emulator gives to the server, as functions on the
--     variables of the file and lists of calls; Emulator/Frames is about the frames of the screen,
--     Emulator/Input about the mouse; Emulator/Start has the thread that starts the server, with fuel for
--     its search of a console.
--   The modules whose names end in `Tests` run the definitions on concrete values.
--
-- Parameters
--   The libraries that the sources call are parameters: what libavcodec, libavformat and their kin
--   answer (`Answers`, and `codec` in Encoder/Audio), `sws_scale` and `av_rescale_q`, `tjCompress2`, the
--   database (`IsSuited` in Collabo/Session, `Database` in Mysql/Statements), the iterators of boost
--   (`Boost`), the sockets (`Attempt`), and what the main loop calls in other files of the emulator
--   (`Host`). Jpeg/Viewer and Collabo/Images have what they rely on of `tjCompress2` as hypotheses, and
--   what a viewer makes of a jpeg as an argument. Mysql/Rights has what it relies on of the
--   database, for sentences of SQL that it writes out, and Mysql/Quoting reads a literal as MySQL does.
--   `insert` and `modify` of the container are written out, as the uniqueness of its index asks for.
--
-- Bounds and fuel
--   `frames_loop` of Encoder/Audio and `sync_loop` of Encoder/Sync are on fuel. They are given one more
--   than the bytes of the piece, and every turn but the last encodes one byte at least; `digits` of
--   Prelude/Text prints a number with fuel for twenty digits. The search of Emulator/Start is given more
--   than the index of the first console; without one it does not end in the source either. A time, a count
--   and a size are native numbers; the sums of the sources stay far below the width of an `int`. A
--   number in a message is written in its bytes, lowest first, as on the machine of the sources.
--
-- Not modelled
--   The json parser of the messages, which is a library; what uWS does with a group that is closed;
--   `collabo_run` of test_collabo.h, which keeps its arguments and starts a thread; the options and the
--   start of the emulator in test_vl.c, which call it only; the floating point numbers of
--   `encodeAudioLoop`, whose result is a parameter.
--   The locks are modelled by the order of the calls. The threads of the compressor take turns of a
--   round each; a race within a round, such as a `sendFull` between the test of the flag and its reset,
--   is not modelled, and neither are turns of several loops of one encoder; an image of a round that is
--   under way when `stop` is called still goes out.
--   A message whose json lacks a field, or has one of another type, throws in the parser and has no
--   counterpart in `Message`. `terminate` is an event: what the hub does with the socket, and whether it
--   calls the handler of a closed socket at once, where that would wait for a lock of its own thread, is
--   not modelled. A role below 0 is no role here, whatever its value. The list of members is sent in the
--   order of the list; the index of the source has the order of the `mcode`.
pub mod Prelude
pub mod Queue
pub mod Jpeg
pub mod Encoder
pub mod Collabo
pub mod Mysql
pub mod Base64
pub mod Agent
pub mod RunState
pub mod Emulator

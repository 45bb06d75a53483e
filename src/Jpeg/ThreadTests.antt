-- ===== src/Jpeg/ThreadTests.antt =====
-- Objects of JpegCompressor.cpp with concrete threads.
use encoder_with_web_socket.Prelude.{false, [], ◌∷◌}
use encoder_with_web_socket.Jpeg.Tests.{started}
use encoder_with_web_socket.Jpeg.Threads.{Pool, looping}

-- An object with one loop.
abbrev pub one_loop : Pool
one_loop = record { stopped = false; full_flag = false; threads = looping started ∷ [] }

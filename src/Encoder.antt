-- ===== src/Encoder.antt =====
-- Encoder.hpp and Encoder.cpp: the encoder, its life cycle and its loops.
pub mod State
pub mod Codec
pub mod Audio
pub mod Framing
pub mod Errors
pub mod Stopping
pub mod Setup
pub mod Life
pub mod Cycle
pub mod Launches
pub mod Lives
pub mod Video
pub mod Screen
pub mod Sound
pub mod Sync
pub mod Pictures
pub mod Turns
pub mod Times
pub mod Filled
pub mod Pieces
pub mod Flow
pub mod Clock
pub mod Pipe
pub mod Delivery
mod Tests
mod LoopTests

-- ===== src/Switch.antt =====
-- The bridge's switch-event decoder, switch_decoder.py: the frame parser, the decoder and its
-- retransmit window.
pub mod Frame
pub mod Codec
pub mod Stream
pub mod Decoder
pub mod Policy
pub mod Window
mod Tests

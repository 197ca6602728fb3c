-- ===== src/Voip.antt =====
-- voip/: the audio path between PJSIP's media clock and RingRTC.
pub mod RingBuffer
pub mod Spsc
pub mod Bridge

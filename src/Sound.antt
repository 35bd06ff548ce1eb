-- ===== src/Sound.antt =====
-- The playback of sound: kernel/src/sound.
pub mod Ring

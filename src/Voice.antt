-- ===== src/Voice.antt =====
-- services/voice-gateway/conversation.py and voice_pipeline.py: the stages of a conversation, from the
-- caller's audio to the answer, and the audio stream that carries it.
pub mod Speech
pub mod Answers
pub mod Hearing
pub mod Utterances
pub mod Dialogue
pub mod Line
pub mod Hangups
mod Tests

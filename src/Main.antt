-- ===== src/Main.antt =====
-- main.c: its state machine, the messages that it shows, and what it posts and reads of a response.
mod Tests
pub mod Loop
pub mod Message
pub mod Post
pub mod Response

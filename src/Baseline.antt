-- ===== src/Baseline.antt =====
-- Baseline/client.c and Baseline/server.c: the measurement over TCP, as a reference for the others.
-- The client sends bytes and waits for an answer; the server reads up to an end message and answers.
pub mod Calls
pub mod Serving
pub mod Script
pub mod System
pub mod Pace
pub mod Pieces
pub mod Ending
pub mod Closing
pub mod Tests

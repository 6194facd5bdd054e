-- ===== src/Template.antt =====
-- Optimization/bw_template.c: what `main` does before and after the measurement. The command line,
-- the device's resources, and the exchange of destinations, which carry the server's region here.
pub mod Message
pub mod Sockets
pub mod Talk
pub mod Attempt
pub mod Options
pub mod Main
pub mod Writes
pub mod Together
pub mod Agree
pub mod Context
pub mod Life
pub mod Closing
pub mod Tests

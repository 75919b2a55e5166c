-- ===== src/Examples.antt =====
-- Concrete inputs on which the theorems run.
mod Characters
mod Coding
mod Logs
mod Sessions
mod Answers
mod Talks
mod Texts
mod Listening

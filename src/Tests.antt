-- ===== src/Tests.antt =====
-- The theorems applied to concrete inputs, one module per part of the program.
mod Tasks
mod Messages
mod Stream
mod Codec
mod Client
mod Scopes
mod Loop

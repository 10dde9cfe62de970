-- ===== src/Tests.antt =====
-- Concrete inputs, and each theorem with hypotheses applied to one of them.
mod Sample
mod Format
mod Signing
mod Keys
mod Answers
mod Flights
mod Journey
mod Drift
mod Transport

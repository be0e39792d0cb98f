-- ===== src/Tests.antt =====
-- Runs at concrete inputs, most of them from siprec_test.c, and the theorems at such inputs.
mod Uri
mod Sb
mod Ids
mod Document
mod Registry
mod Media
mod Answers
mod Leg
mod Drain
mod Attach
mod Pools
mod Start
mod App
mod Session

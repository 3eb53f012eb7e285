-- ===== src/Tests.antt =====
-- Runs of the model and the theorems at concrete inputs.
mod Codec
mod Durability
mod Pool
mod Queries
mod Schemas
mod Statements
mod Texts
mod Trees

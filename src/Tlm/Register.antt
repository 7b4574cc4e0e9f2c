-- ===== src/Tlm/Register.antt =====
-- `RegisterToken`: the stages of an admission, the eviction, and what a whole call does.
pub mod Stages
pub mod Evict
pub mod Place
pub mod Outcome

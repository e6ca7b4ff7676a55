-- ===== src/Tests.antt =====
-- Concrete collaborators that meet the laws the program relies on, runs of the program over them, and
-- the theorems at concrete inputs.
pub mod Quiet
pub mod Texts
pub mod Server
pub mod Transfers
pub mod Payments
pub mod Caching
pub mod Requests
pub mod Calm
pub mod Signup
pub mod History
pub mod Tokens
pub mod Pipeline
pub mod Routes

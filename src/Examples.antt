-- ===== src/Examples.antt =====
-- Concrete runs: test data, and each theorem about the program applied to it.
mod Chains
mod Data
mod Responder
mod Generations
mod Keeping
mod Lists
mod Renewals
mod Requests
mod Sweeps

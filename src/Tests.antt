-- ===== src/Tests.antt =====
-- Runs of the modelled code on small inputs, with an example for each theorem that has hypotheses.
mod Symbol
mod Engine
mod Domain
mod Memory
mod Storage
mod Book
mod Routing
mod Concurrency
mod Interleaved
mod Full
mod Queue
mod Saving
mod Server
mod Simulator
mod Panel
mod Networking

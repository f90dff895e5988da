-- ===== src/Tests.antt =====
-- Concrete runs of the model, and each theorem with hypotheses at an input that meets them.
mod Simulator
mod Server
mod Service
mod Device
mod Topology
mod Messages
mod Splitter
mod Controller
mod Summary
mod Parameters
mod Sockets
mod Waiting
mod Register
mod Metrics
mod Rounds
mod Start

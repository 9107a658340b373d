-- ===== src/Tests.antt =====
-- Concrete runs of the model, and the theorems at concrete inputs.
mod Setting
mod Simulated
mod OnConfig
mod OnWire
mod OnClient
mod OnFloods
mod OnNetns
mod OnHandlers
mod OnRouter
mod OnRemote

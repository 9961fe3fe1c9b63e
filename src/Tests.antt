-- ===== src/Tests.antt =====
-- Runs of the model at small inputs, and the theorems at inputs that meet their hypotheses.
mod Chain
mod Packet
mod Dns
mod Stock
mod Srv
mod Requests
mod Address
mod Object
mod Options
mod Util
mod Connection
mod Socket
mod Messages
mod Pages
mod Service
mod Nt
mod Startup

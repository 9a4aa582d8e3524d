-- ===== src/Tests.antt =====
-- Runs of the model and applications of its theorems at concrete inputs.
mod Messages
mod Texts
mod Machines
mod Protocols
mod Starts
mod Services
mod Sessions
mod Gadgets
mod Apps

-- ===== src/Tests.antt =====
-- Runs at concrete inputs, and the theorems applied to them.
mod ShortestPaths
mod Routing
mod Tables
mod Requests
mod Lookups
mod Daemons
mod Responses
mod Packets
mod Clients
mod Overruns
mod Starts
mod Networks
mod Turns
mod Names

-- ===== src/Examples.antt =====
-- The theorems at concrete inputs of the code.
mod Admissions
mod Probes
mod Accepts
mod Lists
mod Contexts
mod Echoes
mod Gates
mod Datagrams
mod Teardowns
mod Wakes
mod Calls
mod Shutdowns
mod Reactors
mod Descriptors
mod Connections
mod Servers

-- ===== src/Examples.antt =====
-- Tests of the definitions, and the theorems at concrete inputs.
mod Buffers
mod Frames
mod Timers
mod Channels
mod Connections
mod Loops
mod Connectors
mod Loggers
mod Servers
mod Clients
mod Acceptors
mod Clocks
mod Threads
mod Streams
mod Detailed
mod Turns
mod Lives

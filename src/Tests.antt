-- ===== src/Tests.antt =====
-- Examples: the theorems at concrete inputs, and runs of the code's parts.
mod Wire
mod Resource
mod Iocp
mod Work
mod Delivering
mod Threads
mod Users
mod Messages
mod Server
mod Download
mod Sizing
mod Lifecycle
mod ServerConnect
mod Client

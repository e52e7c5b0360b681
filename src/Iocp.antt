-- ===== src/Iocp.antt =====
-- IOCPCommunication/source/IOCPBase.cpp, IOCPServer.cpp, IOCPClient.cpp and IOCPModule.cpp: the
-- connections, as handlers over one explicit state.
pub mod State
pub mod Registry
pub mod Disconnect
pub mod Send
pub mod Receive
pub mod Connect
pub mod Ownership
pub mod Closing
pub mod Closed
pub mod Listed
pub mod Listing
pub mod Enlisting
pub mod Dropping
pub mod Reporting
pub mod Sending
pub mod Receiving
pub mod Accepting
pub mod Connecting
pub mod Steps
pub mod Work
pub mod Threads
pub mod Working
pub mod Joining
pub mod Delivering
pub mod Lifecycle
pub mod Stopping
pub mod Stopped
pub mod Unlisting
pub mod Clients
pub mod Listening
pub mod Serving

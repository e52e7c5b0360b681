-- ===== src/Lib.antt =====
-- Verification of MyCommunication: a network library on Windows completion ports (IOCPCommunication)
-- with a server and a Qt client built on it.
--
-- The parts. `ResourceManage` (IOCPCommunication/Framework/include/ResourceManage.h) is a pool of
-- preallocated objects: the layers above take contexts and user records from it and give them back.
-- `IOCPBase`, `IOCPClient` and `IOCPModule` (IOCPCommunication/source) own the sockets: messages are
-- cut into buffers, queued per connection and posted in order; received bytes are put together to
-- packets again and handed to the layer above through `INetInterface`; each completed operation goes
-- to a handler, and a fault makes the handler give the connection up. The server keeps its users in
-- `UserInfoManage`: the communication layer adds and deletes them, the messages log them in, and a
-- heartbeat thread disconnects those who have been silent.
--
-- Which file models which part:
--   Prelude         shared types, lists, association lists, Boolean tests
--   Resource        ResourceManage.h: `construct`, `reinitialize`, `set_limit`, `reset`, `get`, `put`
--   Wire            the packet format: `PackSendData` and `UnpackReceivedData` of IOCPBase.cpp, on bytes
--   Iocp.State      IOCPDef.h and IOCPModule.cpp: contexts, shared data, calls of the operating system
--   Iocp.Disconnect, Iocp.Send, Iocp.Receive, Iocp.Connect
--                   the handlers of IOCPBase.cpp, and `AddConnect` of IOCPClient.cpp
--   Iocp.Work       the loop of the threads of the completion port in IOCPBase.cpp
--   Iocp.Threads    `InitIOCP` and `UninitIOCP` of IOCPBase.cpp, `StartServer` and the rest of `StopServer`
--                   of IOCPServer.cpp: how those threads start and end
--   Iocp.Steps      the handlers as steps
--   Iocp.Delivering the way of messages through that loop to the layer above
--   Iocp.Lifecycle  `StartServerListen` and `StopServer` of IOCPServer.cpp, `StopClient` of IOCPClient.cpp
--   Users           ServerFramework/Model/ModelManage/UserInfoManage.cpp, and `HandleLoginRq` and
--                   `HandleHeartbeatNt` of Controller/ControllerManage/MainController.cpp
--   Messages        PbMessageHandle.cpp and PbMessageFactory.cpp of ServerFramework/Component/MessageHandle
--   Replies         the replies of ServerFramework/CommonFile/TypeDefine.cpp
--   Server          ServerFramework/Communication/TCPServer.cpp, MainServer/MainServer.cpp and the rounds of
--                   the message threads and of `HeartbeatHandle`: connections, users and messages together
--   Download        QClientFramework/Component/http_service_moudle/HttpRequest.cpp and HttpHelper.h: the
--                   download of a file in chunks
--   Download.Size   how `GetDownloadFileSize` of HttpRequest.cpp asks for the size of a file
--   ServerConnect   QClientFramework/Component/Communication/ServerConnect.cpp, the client's table of servers
--   Client          QClientFramework/Model/ModelManage/MainModel.cpp, the handlers of
--                   Controller/ControllerManage/MainController.cpp, CommonFile/TypeDefine.cpp and
--                   Component/MessageHandle/PbMessageFactory.cpp: how the client connects and logs in
--   Tests           examples
-- The other files below Resource, Wire, Iocp, Users, Messages, Server, Download, ServerConnect
-- and Client hold the proofs.
--
-- How state corresponds. Addresses are numbers, and 0 is the null pointer. A pool hands out addresses
-- of blocks that lie one behind the other. A field of `PER_SOCKET_CONTEXT` or `PER_IO_CONTEXT` is a
-- function from the address to the value. `std::map` is an association list, `std::list` and
-- `std::queue` are lists. 32-bit arithmetic that can wrap has its `% 2 ^ 32`. What the operating
-- system answers is a function from the number of the call to a reply, and the theorems hold for
-- every such function that their conditions allow. Calls of the interface above are a log.
--
-- Fuel. `pack_loop` gets one round more than the message has bytes, and each round takes at least one
-- byte. `unpack_loop` gets one round more than the buffer has bytes; a round that takes no byte
-- repeats for ever in the code. The loop of `StopClient` gets as many rounds as the connection list has
-- entries; a round that stays on its entry repeats for ever in the code.
--
-- What protobuf parses is a parameter, a record of parsers (and, for the client, of its codec), of
-- which nothing is assumed, and so is how it writes a reply. What libcurl delivers, and how each of
-- its transfers ends, is a parameter, and what the file system takes.
--
-- Locks. Each handler is one step: what runs between two locks of one handler is not interleaved with
-- another handler, and what the layer above does inside a call is a step of its own. The threads that
-- handle messages (Messages.Threads) and those of a download (Download.Parallel) are modelled move by
-- move, in any order.
--
-- Not modelled: logging; starting and joining the threads of the message queue and of the heartbeat;
-- the client's windows, the signals to them, and its heartbeat loop, which sends nothing; the client's
-- copies of ResourceManage.h and PbMessageHandle.cpp; the requests of the HTTP module and the setters
-- of its options; the vendored libraries.
pub mod Prelude
pub mod Resource
pub mod Wire
pub mod Iocp
pub mod Replies
pub mod Users
pub mod Messages
pub mod Server
pub mod Download
pub mod ServerConnect
pub mod Client
pub mod Tests

-- ===== src/Server.antt =====
-- server/: the storage interface, the request handler and what surrounds it.
pub mod OperationStorage
pub mod ProtocolLib
pub mod InMemoryOperationStorage
pub mod RequestHandler
pub mod StorageWorker
pub mod ServerConfig
pub mod TcpJsonServer
pub mod SignalHandler
pub mod Clients
pub mod CommandLine
pub mod ServiceApplication

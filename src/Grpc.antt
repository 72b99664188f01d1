-- ===== src/Grpc.antt =====
-- The gRPC example: grpc/*.h, grpc/grpc_client.cpp, grpc/grpc_server.cpp.
pub mod Peer
pub mod Metadata
pub mod Server
pub mod Client
pub mod Service
pub mod Calls

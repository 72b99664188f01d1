-- ===== src/Tests.antt =====
-- The theorems at concrete inputs, and runs of the model on inputs that are easy to follow.
mod Grpc
mod Requests
mod Nginx
mod Mysql
mod GrpcCalls
mod Curl
mod Kafka
mod Civetweb
mod Cpptrace
mod GrpcDemo
mod Startup
mod Threads
mod NginxModule
mod RedisSettings

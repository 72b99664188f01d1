-- ===== src/Mongo.antt =====
-- The MongoDB example: mongodb/mongo_example.cpp.
pub mod Demo
pub mod Traced
pub mod Served

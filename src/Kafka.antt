-- ===== src/Kafka.antt =====
-- The Kafka example: kafka/*.h, kafka/kafka_web_producer.cpp and kafka/kafka_consumer.cpp.
pub mod Headers
pub mod Producer
pub mod Sent
pub mod Served
pub mod Owned
pub mod Consumer

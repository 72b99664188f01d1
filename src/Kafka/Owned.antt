-- ===== src/Kafka/Owned.antt =====
-- Who owns the Kafka headers of a message.

-- ===== src/Kafka.antt =====
-- producer_consumer_librdkafka: the consumer in C, the consumer in C++ and the producer. Kafka itself
-- is librdkafka: its answers are arguments.
pub mod Consumer
pub mod ConsumerCpp
pub mod Producer
pub mod Lines
pub mod Delivery
pub mod Tests

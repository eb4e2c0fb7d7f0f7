-- ===== src/Lib.antt =====
-- RMemQueue: an in-memory message queue with topics, partitions, consumer groups and typed messages.
--
-- A `Broker` (src/broker.rs) holds a backend (src/broker_backend.rs), consumer groups
-- (src/consumer_group.rs), a partitioner (src/partitioner.rs) and an offset store
-- (src/offset_store.rs). The in-memory backend is a map of topics (src/topic.rs); a topic is a list of
-- partitions (src/partition.rs), each a bounded log of messages (src/message.rs). Producers
-- (src/base_producer.rs, src/future_producer.rs, src/stream_producer.rs) send records (src/record.rs,
-- src/headers.rs) to a broker; consumers (src/base_consumer.rs, src/consumer.rs) subscribe, poll, seek
-- and commit. Clients find a broker by its id in a registry (src/registry.rs). src/typed.rs wraps both
-- for messages that carry values instead of bytes.
--
-- Files and code. A name of the code keeps its name; a method takes its object as an argument and
-- returns the changed object beside the result.
-- - Base and its children: shared names, lists, integers, key tests and maps; no code of the program.
-- - Error: src/error.rs, with `panic` as a third outcome of a fallible call. Action: the form of a call
--   on a shared object that may fail.
-- - Headers, Record, Message, TopicPartition, Metadata: the data of the files of these names.
-- - Partition: src/partition.rs. `append` and `append_typed` make a message and `store` it, which is
--   `push_message` and `evict_buffer`. Spec, Append, Evict, Runs, Capacity and Watermarks are proofs.
-- - Config: src/config.rs, with Config.Parse for the number parsing of the standard library.
-- - Topic, Backend: src/topic.rs and src/broker_backend.rs. `with_partition` and `with_topic` write a
--   shared partition or topic back where the code mutates it in place.
-- - Partitioner: src/partitioner.rs, with the i32 and u32 arithmetic in Partitioner.Words.
-- - OffsetStore, Assignor, ConsumerGroup: src/offset_store.rs, src/partition_assignor.rs and
--   src/consumer_group.rs.
-- - Broker: src/broker.rs, with its groups and committed offsets in Broker.Membership. Broker.Custom is
--   the broker over any `BrokerBackend`, with no theorems of its own. Broker.Calm is about the panics of a
--   fetch.
-- - Consumer and Poll: src/base_consumer.rs and the default methods of src/consumer.rs. A `Client` is a
--   consumer, the broker that it shares and the calls made on its context.
--   Consumer.Positions has seek and positions, Consumer.Commits the commits, Consumer.Pausing
--   pause and resume; Poll.Order and Poll.Drain follow poll after poll, Poll.Iterate
--   a loop over the iterator, whose calls find the broker that the list of calls names.
--   Consumer.Trait is the trait of src/consumer.rs with its macro, Consumer.Shared implements it for
--   consumers on a heap, where a `World` has the consumers of one broker and the contexts that clones
--   share, and for the stream consumer.
-- - Message.Access and Record.Decode: the traits `Message` and `FromBytes`; Message.Stored has the
--   accessors of a stored message, Record.Text the conversions of texts and of JSON.
-- - Producer: the producers, with the trait of src/producer.rs in Producer.Trait and the owned records and
--   the sink of src/stream_producer.rs in Producer.Owned, Producer.Sink and Producer.Trait.
-- - Registry: src/registry.rs as one step; Registry.Threads takes its two locks apart, for threads that
--   take turns; Registry.Clients and Registry.Makers have the constructors of the clients.
-- - Typed: src/typed.rs, with its consumer on the heap in Typed.Clients. Stream: src/stream_consumer.rs.
-- - The modules Tests run the theorems at concrete inputs.
--
-- Choices. A lock is held for the whole of a call or a call is short enough to be one step, so threads
-- are sequences of calls, but for the registry, whose call takes two locks. The clock is an
-- argument: a call reads the wall clock once, the monotonic clock once for the message and once for the
-- eviction pass. Waits and deadlines are decided by the environment: `wait_for_messages` takes what each
-- wait told; `poll`, `recv` and `poll_next` take the brokers that their attempts find, and the waits of
-- `recv` take the runtime's notification as a parameter. The iteration order of a hash set is the
-- argument `order`; a hash map is an association list. usize has 64 bits; i32 and i64 arithmetic that
-- Rust checks in debug builds wraps, as in a release build. A partition's next offset, an i64, is a
-- natural number: it does not reach 2^63. No function needs fuel: all loops are over lists or ranges.
--
-- The conversions between texts and bytes, which the standard library does, and those between values and
-- JSON, which serde does, are parameters, the records `Utf8` and `Json` of Record.Text with their laws.
--
-- Not modelled: an offset store of the user's, groups and offsets of a broker over a user's backend, the
-- default methods of src/context.rs, which do nothing, and logging.
mod Base
pub mod Error
pub mod Headers
pub mod Record
pub mod Message
pub mod TopicPartition
pub mod Partition
pub mod Config
pub mod Topic
pub mod Metadata
pub mod Backend
pub mod Partitioner
pub mod OffsetStore
pub mod Assignor
pub mod ConsumerGroup
pub mod Action
pub mod Broker
pub mod Consumer
pub mod Poll
pub mod Producer
pub mod Registry
pub mod Typed
pub mod Stream
pub mod Tests

-- ===== src/Tests/Polling.antt =====
-- Polls and clients at work: the theorems on them at a broker with one message.
use rmem_queue.Base.{
  pos, ◌≡◌, refl, false, not, ◌&&◌, ◌||◌, none, some, [], ◌∷◌, string_eq, int_eq, nat_eq, pair_eq,
  arith,
}
use rmem_queue.Backend
use rmem_queue.Base.Map
use rmem_queue.Broker
use rmem_queue.Broker.{Broker, RecordMetadata, fetch_one_from_position}
use rmem_queue.Consumer.{BaseConsumer, Client}
use rmem_queue.Consumer.Paused.{paused_exact, listed}
use rmem_queue.Consumer.Pausing.{pause, resume}
use rmem_queue.Consumer.Positions.{seek}
use rmem_queue.Error.{ok}
use rmem_queue.Headers.{Bytes}
use rmem_queue.Message.{StoredMessage, BorrowedMessage}
use rmem_queue.Message.Access.{borrowed_message, decode_key, decode_payload}
use rmem_queue.Partition
use rmem_queue.Partitioner
use rmem_queue.Partitioner.Words
use rmem_queue.Poll
use rmem_queue.Poll.{is_paused, poll_once, fetch_for}
use rmem_queue.Poll.Iterate.{iterate, undisturbed, iterate-log}
use rmem_queue.Poll.Order.{Reads, polls, found}
use rmem_queue.Poll.Progress.{IsReady, Tells, poll_once-Returns}
use rmem_queue.Poll.Seek.{seek-polls}
use rmem_queue.Producer.{send}
use rmem_queue.Producer.Decode.{send-decode}
use rmem_queue.Record.{bytes_to_bytes}
use rmem_queue.Record.Decode.{bytes_from_bytes, bytes-IsCodec}
use rmem_queue.Tests.Fixtures.{
  clock, started, started-IsBroker, config-KeepsAll, reported, message, partition, topic, filled,
  filled-IsBroker, topic_known, elem, reader, producer, message_record, delivered_once,
}
use rmem_queue.Topic
use rmem_queue.TopicPartition.{beginning, end}
use rmem_queue.Typed.{payload, key, send_with_headers}
use rmem_queue.Typed.RoundTrip.{Way, with_headers, send_by, send_by-fetch}

abbrev at_start : BaseConsumer
at_start = record reader { position = (("t", pos 0), pos 0) ∷ [] }

reader_runs : is_paused reader elem ≡ false
unfolding Map.get
reader_runs = refl

at_start-Reads : Reads elem at_start 0
unfolding Map.get
at_start-Reads = record { only = refl; running = refl; position = refl }

iterate-log_example :
    iterate (undisturbed filled (3 ∷ 1 ∷ [])) at_start ≡ some (ok (record { inner = message }) ∷ [])
iterate-log_example =
    iterate-log filled at_start elem topic 0 partition 0 (3 ∷ 1 ∷ []) filled-IsBroker refl refl
      topic_known refl refl (omega arith) at_start-Reads (omega arith)

abbrev reading : Client
reading = record { consumer = reader; broker = filled; callbacks = [] }

seek-polls_example :
    let (first, low) = seek "t" (pos 0) beginning reading in
    let (last, high) = seek "t" (pos 0) end reading in
    (first ≡ ok tt)
    × (polls low.broker low.consumer 2 ≡ found message ∷ none ∷ [])
    × (last ≡ ok tt)
    × (polls high.broker high.consumer 1 ≡ none ∷ [])
seek-polls_example =
    seek-polls reading elem topic 0 partition filled-IsBroker refl refl topic_known refl refl
      (λ e. cc) refl reader_runs

at_start-IsReady : IsReady filled at_start elem
unfolding Map.get fetch_for fetch_one_from_position Broker.check_shutdown Broker.resume_offset
    Backend.fetch_one Backend.check_shutdown Backend.get_topic Topic.fetch_one Topic.get_partition
    Partition.read_one
at_start-IsReady = record { message = message; running = refl; fetched = refl }

poll_once-Returns_example : Tells filled at_start (poll_once filled at_start)
poll_once-Returns_example =
    poll_once-Returns filled at_start 0 elem filled-IsBroker refl at_start-IsReady

paused_exact_example :
    (is_paused (pause reader (record { elements = elem ∷ [] })) elem
      ≡ listed (elem ∷ []) ("t", pos 0) || is_paused reader elem)
    × (is_paused (resume reader (record { elements = elem ∷ [] })) elem
        ≡ not (listed (elem ∷ []) ("t", pos 0)) && is_paused reader elem)
paused_exact_example = paused_exact reader (record { elements = elem ∷ [] }) elem

abbrev way : Way
way = with_headers (record { headers = [] })

accepted : (send_by 1 2 way clock "t" 9 (some 8) started).0 ≡ ok reported
unfolding send_by send_with_headers Broker.produce_typed Broker.check_shutdown Broker.ensure_topic
    Backend.ensure_topic Backend.new Map.get Broker.num_partitions Backend.metadata
    Backend.check_shutdown Backend.get_topic Map.insert Backend.topic_metadata Topic.new
    Backend.partitions_metadata Backend.partition_metadata Topic.watermarks Topic.get_partition
    Topic.new_partitions Backend.make_partition_config Backend.produce_typed Broker.choose
    Partition.append_typed Partition.build_policies Partition.message_count Partition.new
    Partition.watermarks Partitioner.partition Partitioner.round_robin_partition
    Partitioner.normalise Words.rem_i32 Words.wrap_i32 Words.i32_of Words.u32_of Topic.produce_typed
accepted = refl

send_by-fetch_example :
    (m : StoredMessage) × (fetch_one_from_position
        (send_by 1 2 way clock "t" 9 (some 8) started).1
        "t"
        (pos 0)
        (some (pos 0))
        none
      ≡ ok (some m))
    × (payload 1 2 m ≡ ok 9)
    × (key 1 2 m ≡ some 8)
    × (m.headers ≡ some (record { headers = [] }))
send_by-fetch_example =
    send_by-fetch 1 2 way clock "t" 9 (some 8) started reported none started-IsBroker
      config-KeepsAll accepted

send-decode_example :
    (m : StoredMessage) × (fetch_one_from_position
        (send clock producer message_record).1.broker
        "t"
        (pos 0)
        (some (pos 0))
        none
      ≡ ok (some m))
    × (decode_key {M = BorrowedMessage} {T = Bytes} (record { inner = m }) ≡ none)
    × (decode_payload {M = BorrowedMessage} {T = Bytes} (record { inner = m }) ≡ some (1 ∷ []))
send-decode_example =
    send-decode clock producer message_record reported none started-IsBroker config-KeepsAll
      delivered_once

-- ===== src/Poll/Drain.antt =====
-- Poll after poll of src/base_consumer.rs on one partition of a broker.
use rmem_queue.Base.{
  ℕ, suc, ◌+◌, ◌-◌, ◌≤◌, ℤ, pos, String, ◌≡◌, refl, ap, sym, ◌∙◌, subst, false, Option, none, some,
  List, [], ◌∷◌, ◌++◌, map, length, get_elem?, get_elem?-none, drop, drop-drop, length-drop,
  string_eq, nat_eq, int_eq, arith,
}
use rmem_queue.Backend
use rmem_queue.Backend.{InMemoryBackend}
use rmem_queue.Base.Map
use rmem_queue.Broker
use rmem_queue.Broker.{Broker}
use rmem_queue.Broker.Valid.{IsBroker}
use rmem_queue.Config.{BrokerConfig}
use rmem_queue.Consumer.{BaseConsumer}
use rmem_queue.Error.{ok}
use rmem_queue.Message.{StoredMessage}
use rmem_queue.Partition
use rmem_queue.Partition.{Partition}
use rmem_queue.Partition.Spec.{IsLog, IsLog-length, read_one_refines}
use rmem_queue.Poll.Order.{polls, Reads, Drains, found, reads-Drains, polls-Drains}
use rmem_queue.Topic
use rmem_queue.Topic.{Topic}
use rmem_queue.Topic.Laws.{get_partition_found}
use rmem_queue.TopicPartition.{TopicPartitionElem}

-- From the first retained offset to the end a read finds what the history has there.
read_one-kept :
    {p : Partition} {history : List StoredMessage} {start : ℕ} (o : ℕ)
    → IsLog p history start
    → start ≤ o
    → o ≤ length history
    → Partition.read_one p (pos o) ≡ ok (get_elem? history o)
read_one-kept {p} {history} {start} o l h k =
    read_one_refines l (pos o) ∙ ground (arith, get_elem?-none history o)

fetch_one_at :
    (b : InMemoryBackend) (topic : String) (t : Topic) (i : ℕ) (p : Partition) (o : ℤ)
    → b.shutdown ≡ false
    → Map.get topic b.topics ≡ some t
    → get_elem? t.partitions i ≡ some p
    → Backend.fetch_one b topic (pos i) o ≡ Partition.read_one p o
unfolding Backend.fetch_one Backend.check_shutdown Backend.get_topic Topic.fetch_one
fetch_one_at b topic t i p o up known at = ground (arith, up, known, get_partition_found t i p at)

fetch_at :
    (b : Broker) (topic : String) (partition : ℤ) (o : ℤ) (g : Option String)
    {x : Option StoredMessage}
    → b.shutdown ≡ false
    → Backend.fetch_one b.backend topic partition o ≡ ok x
    → Broker.fetch_one_from_position b topic partition (some o) g ≡ ok x
unfolding Broker.fetch_one_from_position Broker.check_shutdown Broker.resume_offset
fetch_at b topic partition o g up e = rw (up, e) refl

pub log-Drains :
    {config : BrokerConfig} (b : Broker) (c : BaseConsumer) (elem : TopicPartitionElem) (t : Topic)
    (i : ℕ) (p : Partition) (j : ℕ)
    → IsBroker config b
    → b.shutdown ≡ false
    → b.backend.shutdown ≡ false
    → Map.get elem.topic b.backend.topics ≡ some t
    → get_elem? t.partitions i ≡ some p
    → elem.partition ≡ pos i
    → j ≤ length p.buffer.log
    → Reads elem c (p.buffer.next_offset - length p.buffer.log + j)
    → Drains b c (drop j p.buffer.log)
log-Drains b c elem t i p j v up stored_up known at number h r =
    let part = (v.backend.topics elem.topic t known).parts i p at in
    let l = part.valid.log in
    let total = IsLog-length l in
    let start : p.buffer.next_offset - length p.buffer.log + j ≡ j + part.start =
      omega (arith, total) in
    let n = length p.buffer.log - j in
    let all =
      reads-Drains b elem part.history (λ k m e. (part.valid.numbered.at k m e).0) n
        (j + part.start) c (omega (arith, total, l.next, h)) (subst (Reads elem c) start r)
        (λ k g a z. fetch_at b elem.topic elem.partition (pos k) g up (
          ap (λ q. Backend.fetch_one b.backend elem.topic q (pos k)) number
          ∙ fetch_one_at b.backend elem.topic t i p (pos k) stored_up known at
          ∙ read_one-kept k l (omega arith) z)) in
    subst (Drains b c) (sym (ap (drop j) l.kept ∙ drop-drop j part.start part.history)) all

-- When a consumer of a valid broker that is not shut down has one partition, not paused, and stands at
-- the message with index `j` of its log, then its polls, with no other calls between them, return the
-- messages of the log from there on, in order and each once, and then nothing.
pub polls-drain :
    {config : BrokerConfig} (b : Broker) (c : BaseConsumer) (elem : TopicPartitionElem) (t : Topic)
    (i : ℕ) (p : Partition) (j : ℕ)
    → IsBroker config b
    → b.shutdown ≡ false
    → b.backend.shutdown ≡ false
    → Map.get elem.topic b.backend.topics ≡ some t
    → get_elem? t.partitions i ≡ some p
    → elem.partition ≡ pos i
    → j ≤ length p.buffer.log
    → Reads elem c (p.buffer.next_offset - length p.buffer.log + j)
    → polls b c (suc (length p.buffer.log - j)) ≡ map found (drop j p.buffer.log) ++ none ∷ []
polls-drain b c elem t i p j v up stored_up known at number h r =
    let drained = log-Drains b c elem t i p j v up stored_up known at number h r in
    subst (λ n. polls b c (suc n) ≡ map found (drop j p.buffer.log) ++ none ∷ [])
      (length-drop j p.buffer.log) (polls-Drains drained)

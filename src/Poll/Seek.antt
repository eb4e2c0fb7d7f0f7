-- ===== src/Poll/Seek.antt =====
-- What is polled after a seek.
use rmem_queue.Base.{
  ℕ, suc, ◌+◌, ◌-◌, ◌≤◌, pos, ◌+ℤ◌, ◌-ℤ◌, String, ◌≡◌, ◌≢◌, refl, ap, sym, ◌∙◌, false, none, some,
  List, [], ◌∷◌, ◌++◌, map, length, get_elem?, drop_all, string_eq, nat_eq, int_eq, pair_eq, arith,
  if◌then◌else◌,
}
use rmem_queue.Backend
use rmem_queue.Backend.{InMemoryBackend}
use rmem_queue.Base.Map
use rmem_queue.Base.Map.{get-insert_self}
use rmem_queue.Broker
use rmem_queue.Broker.{Broker}
use rmem_queue.Broker.Valid.{IsBroker}
use rmem_queue.Config.{BrokerConfig}
use rmem_queue.Consumer.{Client}
use rmem_queue.Consumer.Positions.{seek, seek_offset}
use rmem_queue.Error.{ok}
use rmem_queue.Message.{StoredMessage}
use rmem_queue.Partition
use rmem_queue.Partition.{Partition, is_empty, oldest_offset}
use rmem_queue.Partition.Spec.{IsLog-length}
use rmem_queue.Poll.{is_paused}
use rmem_queue.Poll.Order.{polls, Reads, found}
use rmem_queue.Poll.Drain.{polls-drain}
use rmem_queue.Topic
use rmem_queue.Topic.{Topic}
use rmem_queue.Topic.Laws.{get_partition_found}
use rmem_queue.TopicPartition.{TopicPartitionElem, Offset, beginning, end}

watermarks_at :
    (b : Broker) (topic : String) (t : Topic) (i : ℕ) (p : Partition)
    → b.backend.shutdown ≡ false
    → Map.get topic b.backend.topics ≡ some t
    → get_elem? t.partitions i ≡ some p
    → Broker.watermarks b topic (pos i) ≡ ok (Partition.watermarks p)
unfolding Broker.watermarks Backend.watermarks Backend.check_shutdown Backend.get_topic
    Topic.watermarks
watermarks_at b topic t i p up known at = ground (arith, up, known, get_partition_found t i p at)

-- A seek that finds its offset sets the position.
seek-Reads :
    (w : Client) (elem : TopicPartitionElem) (to : Offset) (o : ℕ)
    → w.consumer.assigned_partitions.elements ≡ elem ∷ []
    → is_paused w.consumer elem ≡ false
    → seek_offset w elem.topic elem.partition to ≡ ok (pos o)
    → ((seek elem.topic elem.partition to w).0 ≡ ok tt)
      × ((seek elem.topic elem.partition to w).1.broker ≡ w.broker)
      × Reads elem (seek elem.topic elem.partition to w).1.consumer o
unfolding seek
seek-Reads w elem to o only running e = rw e (
  refl,
  refl,
  record {
    only = only;
    running = running;
    position = get-insert_self (elem.topic, elem.partition) (pos o) w.consumer.position;
  },
)

oldest_kept :
    (log : List StoredMessage) (next : ℕ)
    → length log ≤ next
    → log ≢ []
    → (if is_empty log then pos 0 else pos next -ℤ pos (length log)) ≡ pos (next - length log + 0)
oldest_kept [] next h filled = absurd (filled refl)
oldest_kept (m ∷ ms) next h filled = ground arith

first_kept :
    (p : Partition)
    → length p.buffer.log ≤ p.buffer.next_offset
    → p.buffer.log ≢ []
    → (Partition.watermarks p).0 ≡ pos (p.buffer.next_offset - length p.buffer.log + 0)
unfolding Partition.watermarks
first_kept p h filled = oldest_kept p.buffer.log p.buffer.next_offset h filled

after_last : (p : Partition) → (Partition.watermarks p).1 +ℤ pos 1 ≡ pos p.buffer.next_offset
unfolding Partition.watermarks
after_last p = ground arith

-- After a seek to the beginning of a partition that is not empty, a consumer that has just this
-- partition, not paused, polls its whole log in order and then nothing; after a seek to the end it
-- polls nothing. The broker is valid and not shut down.
pub seek-polls :
    {config : BrokerConfig} (w : Client) (elem : TopicPartitionElem) (t : Topic) (i : ℕ)
    (p : Partition)
    → IsBroker config w.broker
    → w.broker.shutdown ≡ false
    → w.broker.backend.shutdown ≡ false
    → Map.get elem.topic w.broker.backend.topics ≡ some t
    → get_elem? t.partitions i ≡ some p
    → elem.partition ≡ pos i
    → p.buffer.log ≢ []
    → w.consumer.assigned_partitions.elements ≡ elem ∷ []
    → is_paused w.consumer elem ≡ false
    → let (first, at_start) = seek elem.topic elem.partition beginning w in
      let (last, at_end) = seek elem.topic elem.partition end w in
      (first ≡ ok tt)
      × (polls at_start.broker at_start.consumer (suc (length p.buffer.log))
          ≡ map found p.buffer.log ++ none ∷ [])
      × (last ≡ ok tt)
      × (polls at_end.broker at_end.consumer 1 ≡ none ∷ [])
unfolding seek_offset
seek-polls w elem t i p v up stored_up known at number filled only running =
    let l = ((v.backend.topics elem.topic t known).parts i p at).valid.log in
    let total = IsLog-length l in
    let marks : Broker.watermarks w.broker elem.topic elem.partition ≡ ok (Partition.watermarks p) =
      ap (λ q. Broker.watermarks w.broker elem.topic q) number
      ∙ watermarks_at w.broker elem.topic t i p stored_up known at in
    let low : seek_offset w elem.topic elem.partition beginning
        ≡ ok (pos (p.buffer.next_offset - length p.buffer.log + 0)) =
      rw marks (ap ok (first_kept p (omega (arith, total)) filled)) in
    let high : seek_offset w elem.topic elem.partition end
        ≡ ok (pos (p.buffer.next_offset - length p.buffer.log + length p.buffer.log)) =
      rw marks (ap ok (after_last p ∙ ap pos (omega (arith, total)))) in
    let (first, same, r) = seek-Reads w elem beginning _ only running low in
    let (last, same', r') = seek-Reads w elem end _ only running high in
    let all = polls-drain w.broker _ elem t i p 0 v up stored_up known at number (omega arith) r in
    let nothing =
      polls-drain w.broker _ elem t i p (length p.buffer.log) v up stored_up known at number
        (omega arith) r' in
    let at_start = (seek elem.topic elem.partition beginning w).1.consumer in
    let at_end = (seek elem.topic elem.partition end w).1.consumer in
    let none_left : length p.buffer.log - length p.buffer.log ≡ 0 = omega arith in
    (
      first,
      ap (λ b. polls b at_start (suc (length p.buffer.log))) same
          ∙ ap (λ n. polls w.broker at_start (suc n)) (omega arith)
          ∙ all,
      last,
      ap (λ b. polls b at_end 1) same'
          ∙ ap (λ n. polls w.broker at_end (suc n)) (sym none_left)
          ∙ nothing
          ∙ ap (λ ms. map found ms ++ none ∷ []) (drop_all p.buffer.log),
    )

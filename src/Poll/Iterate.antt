-- ===== src/Poll/Iterate.antt =====
-- The iterator of src/base_consumer.rs, in a loop over the messages of a consumer.
use rmem_queue.Base.{
  ℕ, zero, suc, ◌+◌, ◌-◌, ◌≤◌, ◌<◌, pos, ◌≡◌, refl, ap, ◌∙◌, false, Option, none, some, List, [],
  ◌∷◌, map, length, drop, get_elem?, length-drop, string_eq, nat_eq, int_eq, arith,
}
use rmem_queue.Base.Map
use rmem_queue.Broker.{Broker}
use rmem_queue.Broker.Valid.{IsBroker}
use rmem_queue.Config.{BrokerConfig}
use rmem_queue.Partition.{Partition}
use rmem_queue.Topic.{Topic}
use rmem_queue.TopicPartition.{TopicPartitionElem}
use rmem_queue.Poll.Drain.{log-Drains}
use rmem_queue.Consumer.{BaseConsumer}
use rmem_queue.Error.{Result, ok}
use rmem_queue.Message.{StoredMessage, BorrowedMessage}
use rmem_queue.Poll.{poll_once, poll, until_found}
use rmem_queue.Poll.Order.{found, Reads, Drains, done, more}

-- One call, with the broker as each attempt within its second finds it.
unfoldable pub iter_next :
    Broker → List Broker → BaseConsumer → Option (Result BorrowedMessage) × BaseConsumer
iter_next b later c = poll b later c

abbrev pub taken :
    Option (Result BorrowedMessage) × BaseConsumer
    → (BaseConsumer → Option (List (Result BorrowedMessage)))
    → Option (List (Result BorrowedMessage))
taken (none, c) rest = some []
taken (some r, c) rest = elim (rest c) [ none ↦ none | some rs ↦ some (r ∷ rs) ]

-- What a loop over the iterator takes from it, when it ends within the calls given.
unfoldable pub iterate :
    List (Broker × List Broker) → BaseConsumer → Option (List (Result BorrowedMessage))
iterate [] c = none
iterate ((b, later) ∷ calls) c = taken (iter_next b later c) (iterate calls)

abbrev copies : Broker → ℕ → List Broker
copies b zero = []
copies b (suc n) = b ∷ copies b n

-- Calls that all find the same broker; each makes some more attempts when it finds nothing.
abbrev pub undisturbed : Broker → List ℕ → List (Broker × List Broker)
undisturbed b [] = []
undisturbed b (again ∷ waits) = (b, copies b again) ∷ undisturbed b waits

next_found :
    (b : Broker) (later : List Broker) (c c' : BaseConsumer) (m : StoredMessage)
    → poll_once b c ≡ (found m, c')
    → iter_next b later c ≡ (found m, c')
unfolding iter_next poll
next_found b [] c c' m e = e
next_found b (b' ∷ later) c c' m e = ap (λ r. until_found r (poll b' later)) e

next_idle :
    (b : Broker) (c : BaseConsumer) (again : ℕ)
    → poll_once b c ≡ (none, c)
    → iter_next b (copies b again) c ≡ (none, c)
unfolding iter_next poll
next_idle b c zero e = e
next_idle b c (suc again) e =
    ap (λ r. until_found r (poll b (copies b again))) e ∙ next_idle b c again e

pub iterate-Drains :
    (b : Broker) (c : BaseConsumer) (ms : List StoredMessage) (waits : List ℕ)
    → Drains b c ms
    → length ms < length waits
    → iterate (undisturbed b waits) c ≡ some (map (λ m. ok (record { inner = m })) ms)
unfolding iterate
iterate-Drains b c ms [] d h = ground (arith, h)
iterate-Drains b c [] (again ∷ waits) (done e) h =
    ap (λ r. taken r (iterate (undisturbed b waits))) (next_idle b c again e)
iterate-Drains b c (m ∷ ms) (again ∷ waits) (more {c' = c'} e d) h =
    ap (λ r. taken r (iterate (undisturbed b waits))) (next_found b (copies b again) c c' m e)
    ∙ rw (taken, iterate-Drains b c' ms waits d (omega (arith, h))) refl

-- A loop over the iterator of a consumer of a valid broker that is not shut down, which has one
-- partition, not paused, and stands at the message with index `j` of its log, with no other calls
-- meanwhile, takes the messages of the log from there on, in order and each once, and then ends: it
-- needs one call more than there are messages, however many attempts each call makes.
pub iterate-log :
    {config : BrokerConfig} (b : Broker) (c : BaseConsumer) (elem : TopicPartitionElem) (t : Topic)
    (i : ℕ) (p : Partition) (j : ℕ) (waits : List ℕ)
    → IsBroker config b
    → b.shutdown ≡ false
    → b.backend.shutdown ≡ false
    → Map.get elem.topic b.backend.topics ≡ some t
    → get_elem? t.partitions i ≡ some p
    → elem.partition ≡ pos i
    → j ≤ length p.buffer.log
    → Reads elem c (p.buffer.next_offset - length p.buffer.log + j)
    → length p.buffer.log - j < length waits
    → iterate (undisturbed b waits) c
      ≡ some (map (λ m. ok (record { inner = m })) (drop j p.buffer.log))
iterate-log b c elem t i p j waits v up stored_up known at number h r enough =
    iterate-Drains b c (drop j p.buffer.log) waits
      (log-Drains b c elem t i p j v up stored_up known at number h r)
      (omega (arith, enough, length-drop j p.buffer.log))

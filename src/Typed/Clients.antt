-- ===== src/Typed/Clients.antt =====
-- `TypedConsumer` and `TypedBorrowedMessage` of src/typed.rs: what they pass on to the client and the
-- message inside.
use rmem_queue.Base.{ℕ, ℤ, String, Option, List}
use rmem_queue.Action.{Action}
use rmem_queue.Broker.{Broker}
use rmem_queue.Consumer.Shared
use rmem_queue.Consumer.Shared.{World, base_consumer, clone_consumer}
use rmem_queue.Consumer.Trait.{CommitMode}
use rmem_queue.Error.{Result, ok, err, panic}
use rmem_queue.Headers.{OwnedHeaders}
use rmem_queue.Message.{StoredMessage}
use rmem_queue.Message.Stored
use rmem_queue.TopicPartition.{Offset, TopicPartitionList}
use rmem_queue.Typed.{typed_result}

-- The accessors of `TypedBorrowedMessage` that have no type.
unfoldable pub topic : StoredMessage → String
topic m = Stored.topic m

unfoldable pub partition : StoredMessage → ℤ
partition m = Stored.partition m

unfoldable pub offset : StoredMessage → ℤ
offset m = Stored.offset m

unfoldable pub timestamp : StoredMessage → ℤ
timestamp m = Stored.timestamp m

unfoldable pub headers : StoredMessage → Option OwnedHeaders
headers m = Stored.headers m

-- `inner` is a consumer of its own on the heap.
pub record TypedConsumer : Type 0 where
  pub inner : ℕ

-- `TypedConsumer::poll` with one attempt.
unfoldable pub poll : TypedConsumer → World → Option (Result StoredMessage) × World
poll self w = let (r, w') = Shared.poll self.inner w in (typed_result r, w')

abbrev wrapped : Result ℕ × World → Result TypedConsumer × World
wrapped (ok a, w) = (ok (record { inner = a }), w)
wrapped (err e, w) = (err e, w)
wrapped (panic, w) = (panic, w)

-- `Clone for TypedConsumer` clones the consumer inside.
unfoldable pub clone : TypedConsumer → String → Action World TypedConsumer
clone self new_member_id w = wrapped (clone_consumer self.inner new_member_id w)

module _ (order : List String → List String) where
  unfoldable pub subscribe : TypedConsumer → List String → Action World (Unit {0})
  subscribe self topics = (base_consumer order).subscribe self.inner topics

  unfoldable pub unsubscribe : TypedConsumer → Action World (Unit {0})
  unsubscribe self = (base_consumer order).unsubscribe self.inner

  unfoldable pub assign : TypedConsumer → TopicPartitionList → Action World (Unit {0})
  assign self partitions = (base_consumer order).assign self.inner partitions

  unfoldable pub assignment : TypedConsumer → World → Result TopicPartitionList
  assignment self = (base_consumer order).assignment self.inner

  unfoldable pub seek : TypedConsumer → String → ℤ → Offset → Action World (Unit {0})
  seek self t p o = (base_consumer order).seek self.inner t p o

  unfoldable pub commit : TypedConsumer → TopicPartitionList → CommitMode → Action World (Unit {0})
  commit self tpl mode = (base_consumer order).commit self.inner tpl mode

  unfoldable pub broker : TypedConsumer → World → Result Broker
  broker self = (base_consumer order).broker self.inner

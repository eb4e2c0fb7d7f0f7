-- ===== src/Consumer.antt =====
-- src/base_consumer.rs and the trait of src/consumer.rs: a consumer's subscription, positions and
-- polling. A consumer's calls come one after another; other clients act on the broker between them.
pub mod Positions
pub mod Commits
pub mod Pausing
pub mod Trait
pub mod Shared
pub mod Subscribed
pub mod Unsubscribed
pub mod Clones
pub mod Paused
pub mod Stored
pub mod Commit
use rmem_queue.Broker.Membership
use rmem_queue.Base.{
  ℕ, ℤ, String, Option, none, some, List, [], ◌∷◌, nat_eq, int_eq, string_eq, pair_eq,
}
use rmem_queue.Action.{Action, ◌>>=◌, ◌>>◌, pure, reads}
use rmem_queue.Base.Map.{Map}
use rmem_queue.Broker
use rmem_queue.Broker.{Broker}
use rmem_queue.Error.{Result, ok, err, panic}
use rmem_queue.Metadata.{PartitionMetadata, TopicMetadata}
use rmem_queue.TopicPartition.{TopicPartitionList, add_partition}
use rmem_queue.TopicPartition

-- The calls of the `ConsumerContext`.
pub data Callback : Type 0 where
  assigned revoked committed : TopicPartitionList → Callback

abbrev pub PartitionKey : Type 0
PartitionKey = String × ℤ

-- The fields of `ConsumerState` are among these; `paused` is a set. `context` is the address of the
-- shared context.
pub record BaseConsumer : Type 0 where
  pub group_id : Option String
  pub member_id : String
  pub subscribed_topics : List String
  pub assigned_partitions : TopicPartitionList
  pub position : Map PartitionKey ℤ
  pub paused : Map PartitionKey (Unit {0})
  pub poll_start : ℕ
  pub context : ℕ

-- `member_id` is made from the clock and a global counter, and the context is put on the heap.
unfoldable pub new : Option String → String → ℕ → BaseConsumer
new group_id member_id context = record {
  group_id = group_id;
  member_id = member_id;
  subscribed_topics = [];
  assigned_partitions = TopicPartition.new;
  position = [];
  paused = [];
  poll_start = 0;
  context = context;
}

-- `Clone`: a fresh member id, no group, no state; the context is shared.
unfoldable pub clone : BaseConsumer → String → BaseConsumer
clone c new_member_id = new none new_member_id c.context

-- A consumer's object, the broker that it shares with other clients, and the calls made on its
-- context, which it shares with its clones, the latest first.
pub record Client : Type 0 where
  pub consumer : BaseConsumer
  pub broker : Broker
  pub callbacks : List Callback

abbrev pub on_broker : {A : Type 0} → Action Broker A → Action Client A
on_broker f w = let (r, broker) = f w.broker in (r, record w { broker = broker })

abbrev pub update : (BaseConsumer → BaseConsumer) → Action Client (Unit {0})
update f w = (ok tt, record w { consumer = f w.consumer })

-- A call on the context.
abbrev pub calls_back : Callback → Action Client (Unit {0})
calls_back callback w = (ok tt, record w { callbacks = callback ∷ w.callbacks })

abbrev pub add_partitions :
    TopicPartitionList → String → List PartitionMetadata → TopicPartitionList
add_partitions tpl name [] = tpl
add_partitions tpl name (pm ∷ pms) = add_partitions (add_partition tpl name pm.id) name pms

abbrev pub add_topics : TopicPartitionList → List TopicMetadata → TopicPartitionList
add_topics tpl [] = tpl
add_topics tpl (tm ∷ tms) = add_topics (add_partitions tpl tm.name tm.partitions) tms

-- `if let Ok(meta) = self.broker.metadata(Some(topic))`: a failure is passed over.
unfoldable pub all_partitions :
    Broker → TopicPartitionList → List String → Result TopicPartitionList
all_partitions b tpl [] = ok tpl
all_partitions b tpl (topic ∷ topics) = elim (Broker.metadata b (some topic)) [
  | ok meta ↦ all_partitions b (add_topics tpl meta.topics) topics
  | err _ ↦ all_partitions b tpl topics
  | panic ↦ panic
]

unfoldable pub assignment_for :
    (List String → List String) → List String → Action Client TopicPartitionList
assignment_for order topics w = elim w.consumer.group_id [
  | some gid ↦ on_broker (Membership.join_group order gid w.consumer.member_id topics) w
  | none ↦ (all_partitions w.broker TopicPartition.new topics, w)
]

unfoldable pub subscribe : (List String → List String) → List String → Action Client (Unit {0})
subscribe order topics = do
  assignment ← assignment_for order topics
  calls_back (assigned assignment)
  update λ c. record c { subscribed_topics = topics; assigned_partitions = assignment }

unfoldable pub leave : (List String → List String) → Action Client (Unit {0})
leave order w = elim w.consumer.group_id [
  | some gid ↦ on_broker (Membership.leave_group order gid w.consumer.member_id) w
  | none ↦ (ok tt, w)
]

unfoldable pub unsubscribe : (List String → List String) → Action Client (Unit {0})
unsubscribe order = do
  old_assignment ← reads λ w. ok w.consumer.assigned_partitions
  leave order
  calls_back (revoked old_assignment)
  update λ c. record c {
    subscribed_topics = [];
    assigned_partitions = TopicPartition.new;
    position = [];
    paused = [];
  }

unfoldable pub assign : BaseConsumer → TopicPartitionList → BaseConsumer
assign c partitions = record c { assigned_partitions = partitions; position = [] }

unfoldable pub assignment : BaseConsumer → TopicPartitionList
assignment c = c.assigned_partitions

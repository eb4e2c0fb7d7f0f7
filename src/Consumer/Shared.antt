-- ===== src/Consumer/Shared.antt =====
-- Consumers as shared objects: `BaseConsumer`s on a heap, and the wrappers of src/stream_consumer.rs
-- and src/typed.rs, which hold one.
use rmem_queue.Base.{ℕ, String, Option, none, some, List, [], ◌∷◌, ◌++◌, length, get_elem?, set}
use rmem_queue.Action.{Action}
use rmem_queue.Broker.{Broker}
use rmem_queue.Consumer as Base
use rmem_queue.Consumer.{BaseConsumer, Callback, Client, update}
use rmem_queue.Consumer.Commits
use rmem_queue.Consumer.Pausing
use rmem_queue.Consumer.Positions
use rmem_queue.Consumer.Trait.{Consumer, delegate_consumer}
use rmem_queue.Error.{Result, ok, panic}
use rmem_queue.Message.{BorrowedMessage}
use rmem_queue.Poll

-- The consumers of one broker, each behind its own lock, and the contexts that they share, by the
-- calls made on each. An `Arc` and a `&self` are addresses.
pub record World : Type 0 where
  pub consumers : List BaseConsumer
  pub contexts : List (List Callback)
  pub broker : Broker

abbrev client_of : World → BaseConsumer → Option Client
client_of w c = elim (get_elem? w.contexts c.context) [
  | none ↦ none
  | some callbacks ↦ some (record { consumer = c; broker = w.broker; callbacks = callbacks })
]

-- The consumer at an address, with its broker and its context.
abbrev pub client_at : ℕ → World → Option Client
client_at self w = elim (get_elem? w.consumers self) [ none ↦ none | some c ↦ client_of w c ]

-- A call on the consumer at an address; no address is off the heap.
abbrev pub on_consumer : {A : Type 0} → ℕ → Action Client A → Action World A
on_consumer self f w = elim (client_at self w) [
  | none ↦ (panic, w)
  | some client ↦
      let (r, client') = f client in
      (
        r,
        record {
          consumers = set w.consumers self client'.consumer;
          contexts = set w.contexts client.consumer.context client'.callbacks;
          broker = client'.broker;
        },
      )
]

-- A call that only reads.
abbrev pub of_consumer : {A : Type 0} → ℕ → (Client → Result A) → World → Result A
of_consumer self f w = elim (client_at self w) [ none ↦ panic | some client ↦ f client ]

module _ (order : List String → List String) where
  -- `impl Consumer for BaseConsumer`
  unfoldable pub base_consumer : Consumer ℕ World
  base_consumer = record {
    broker = λ self. of_consumer self λ c. ok c.broker;
    subscribe = λ self topics. on_consumer self (Base.subscribe order topics);
    unsubscribe = λ self. on_consumer self (Base.unsubscribe order);
    subscription = λ self. of_consumer self λ c. ok (Base.assignment c.consumer);
    assign = λ self partitions. on_consumer self (update λ c. Base.assign c partitions);
    assignment = λ self. of_consumer self λ c. ok (Base.assignment c.consumer);
    seek = λ self topic partition o. on_consumer self (Positions.seek topic partition o);
    commit = λ self tpl mode. on_consumer self (Commits.commit tpl);
    store_offset = λ self topic partition o.
        on_consumer self (update λ c. Positions.store_offset c topic partition o);
    committed = λ self. of_consumer self Commits.committed_list;
    position = λ self. of_consumer self λ c. ok (Positions.position_list c.consumer);
    pause = λ self partitions. on_consumer self (update λ c. Pausing.pause c partitions);
    resume = λ self partitions. on_consumer self (update λ c. Pausing.resume c partitions);
  }

-- A new consumer on the heap.
abbrev pub allocate : BaseConsumer → World → ℕ × World
allocate c w = (length w.consumers, record w { consumers = w.consumers ++ c ∷ [] })

-- `Clone for BaseConsumer`
unfoldable pub clone_consumer : ℕ → String → Action World ℕ
clone_consumer self new_member_id w = elim (get_elem? w.consumers self) [
  | none ↦ (panic, w)
  | some c ↦ let (copy, w') = allocate (Base.clone c new_member_id) w in (ok copy, w')
]

-- `BaseConsumer::poll` with one attempt.
unfoldable pub poll : ℕ → World → Option (Result BorrowedMessage) × World
poll self w = elim (get_elem? w.consumers self) [
  | none ↦ (some panic, w)
  | some c ↦
      let (r, c') = Poll.poll w.broker [] c in (r, record w { consumers = set w.consumers self c' })
]

-- `inner` is an `Arc`, which `derive(Clone)` copies.
pub record StreamConsumer : Type 0 where
  pub inner : ℕ

unfoldable pub clone_stream : StreamConsumer → StreamConsumer
clone_stream self = record { inner = self.inner }

-- `delegate_consumer!(StreamConsumer, inner)`
unfoldable pub stream_consumer : (List String → List String) → Consumer StreamConsumer World
stream_consumer order =
    delegate_consumer (λ (self : StreamConsumer). self.inner) (base_consumer order)

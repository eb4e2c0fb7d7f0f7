-- ===== src/Stream.antt =====
-- src/stream_consumer.rs: an asynchronous consumer over a base consumer. What the runtime and other
-- tasks do between two steps of a task is given: the broker as each step finds it.
pub mod Recv
use rmem_queue.Base.{
  ◌||◌, ℤ, String, Bool, true, false, Option, none, some, List, [], ◌∷◌, if◌then◌else◌,
}
use rmem_queue.Broker
use rmem_queue.Broker.{Broker}
use rmem_queue.Consumer.{BaseConsumer}
use rmem_queue.Error.{Result, ok, err, panic}
use rmem_queue.Message.{OwnedMessage, BorrowedMessage, detach}
use rmem_queue.Partition.{is_empty}
use rmem_queue.Poll

-- `Ok(msg) => Ok(msg.detach())`
abbrev pub detached : Result BorrowedMessage → Result OwnedMessage
detached (ok m) = ok (detach m)
detached (err e) = err e
detached panic = panic

-- A partition whose `PartitionNotify` is waited on.
abbrev pub Key : Type 0
Key = String × ℤ

-- Before the next try a task yields, or waits on these notifications.
pub data Pending : Type 0 where
  yields : Pending
  waits : List Key → Pending

-- The tests on the topics and on their notifications, in `recv` and in `poll_next`.
unfoldable pub pending : Broker → BaseConsumer → Pending
pending b c =
    let notifies = Broker.get_partition_notifies b c.subscribed_topics in
    if is_empty c.subscribed_topics
    then yields
    else if is_empty notifies
    then yields
    else waits notifies

-- What one round of the loop of `recv` decides.
pub data Round : Type 0 where
  received : Result OwnedMessage → BaseConsumer → Round
  again : Pending → BaseConsumer → Round

abbrev pub round_of : Broker → Option (Result BorrowedMessage) × BaseConsumer → Round
round_of b (some r, c) = received (detached r) c
round_of b (none, c) = again (pending b c) c

-- The timeout of the poll is 0: there is one attempt.
unfoldable pub recv_round : Broker → BaseConsumer → Round
recv_round b c = round_of b (Poll.poll b [] c)

-- `recv`, with the broker as each round finds it; `none` means that it still waits.
unfoldable pub recv :
    Broker → List Broker → BaseConsumer → Option (Result OwnedMessage) × BaseConsumer
recv b [] c = elim (recv_round b c) [ received r d ↦ (some r, d) | again w d ↦ (none, d) ]
recv b (b' ∷ later) c = elim (recv_round b c) [
  | received r d ↦ (some r, d)
  | again w d ↦ recv b' later d
]

-- `notified_fut`, the sequential waits `for notify in &notifies { notify.async_notify().notified().await; }`.
-- `notified state key` is what the runtime's notifications, with their stored permits, become when the
-- wait for `key` ends, and `none` if it does not end.
unfoldable pub await_all : {S : Type 0} → (S → Key → Option S) → S → List Key → Bool
await_all notified state [] = true
await_all notified state (key ∷ keys) = elim (notified state key) [
  | none ↦ false
  | some rest ↦ await_all notified rest keys
]

-- The `tokio::select!` that ends the pause between two rounds of `recv`: the waits, or the timeout of
-- 30 seconds, of which `elapsed` tells whether it passed.
unfoldable pub wait_ends : {S : Type 0} → (S → Key → Option S) → S → Bool → List Key → Bool
wait_ends notified state elapsed keys = await_all notified state keys || elapsed

-- What `poll_next` returns. `wakes` means that it has woken its own task, `sleeps` that a spawned task
-- will, once the waits on these notifications end or 100 ms have passed.
pub data Polled : Type 0 where
  ready : Result OwnedMessage → BaseConsumer → Polled
  wakes : BaseConsumer → Polled
  sleeps : List Key → BaseConsumer → Polled

abbrev pub second_poll : List Key → Option (Result BorrowedMessage) × BaseConsumer → Polled
second_poll notifies (some r, c) = ready (detached r) c
second_poll notifies (none, c) = sleeps notifies c

-- After the first poll: `w` says what there is to wait on. With the result come the calls of
-- `notify_one`, which are made before the second poll.
abbrev pub first_poll :
    Broker → Pending → Option (Result BorrowedMessage) × BaseConsumer → Polled × List Key
first_poll b' w (some r, c) = (ready (detached r) c, [])
first_poll b' yields (none, c) = (wakes c, [])
first_poll b' (waits notifies) (none, c) = (second_poll notifies (Poll.poll b' [] c), notifies)

-- `MessageStream::poll_next`: `b'` is the broker that the second poll finds.
unfoldable pub poll_next : Broker → Broker → BaseConsumer → Polled × List Key
poll_next b b' c = let polled = Poll.poll b [] c in first_poll b' (pending b polled.1) polled

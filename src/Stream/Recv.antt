-- ===== src/Stream/Recv.antt =====
-- `recv` and `poll_next` of src/stream_consumer.rs beside the poll of a base consumer.
use rmem_queue.Base.{ℕ, ◌≡◌, refl, ap, ◌∙◌, Option, none, some, List, [], ◌∷◌, get_elem?}
use rmem_queue.Broker.{Broker}
use rmem_queue.Consumer.{BaseConsumer}
use rmem_queue.Error.{Result}
use rmem_queue.Message.{OwnedMessage, BorrowedMessage}
use rmem_queue.Poll
use rmem_queue.Poll.Progress.{IsReady, poll_once-some}
use rmem_queue.Stream.{
  received, again, round_of, recv_round, recv, detached, pending, yields, waits, poll_next,
  first_poll, second_poll, Polled, ready, wakes, sleeps, Pending, Key,
}
use rmem_queue.TopicPartition.{TopicPartitionElem}

abbrev pub detach_all :
    Option (Result BorrowedMessage) × BaseConsumer → Option (Result OwnedMessage) × BaseConsumer
detach_all (some r, c) = (some (detached r), c)
detach_all (none, c) = (none, c)

last_round :
    (b : Broker) (x : Option (Result BorrowedMessage) × BaseConsumer)
    → elim (round_of b x) as (λ _. Option (Result OwnedMessage) × BaseConsumer) [
      | received r d ↦ (some r, d)
      | again w d ↦ (none, d)
    ]
      ≡ detach_all x
last_round b (some r, c) = refl
last_round b (none, c) = refl

next_round :
    (b b' : Broker) (later : List Broker) (x : Option (Result BorrowedMessage) × BaseConsumer)
    → ((d : BaseConsumer) → recv b' later d ≡ detach_all (Poll.poll b' later d))
    → elim (round_of b x) as (λ _. Option (Result OwnedMessage) × BaseConsumer) [
      | received r d ↦ (some r, d)
      | again w d ↦ recv b' later d
    ]
      ≡ detach_all (Poll.until_found x (Poll.poll b' later))
next_round b b' later (some r, c) k = refl
next_round b b' later (none, c) k = k c

pub recv-poll :
    (b : Broker) (later : List Broker) (c : BaseConsumer)
    → recv b later c ≡ detach_all (Poll.poll b later c)
unfolding recv recv_round Poll.poll
recv-poll b [] c = last_round b (Poll.poll_once b c)
recv-poll b (b' ∷ later) c = next_round b b' later (Poll.poll_once b c) (λ d. recv-poll b' later d)

-- What a call of `poll_next` has done to the consumer, and whether it has yielded an item.
abbrev pub item_of : Polled → Option (Result OwnedMessage) × BaseConsumer
item_of (ready r c) = (some r, c)
item_of (wakes c) = (none, c)
item_of (sleeps keys c) = (none, c)

-- The second attempt of `poll_next` is made only where there is something to wait on.
abbrev pub attempts : Broker → Pending → List Broker
attempts b' yields = []
attempts b' (waits keys) = b' ∷ []

second-keys :
    (keys keys' : List Key) (x : Option (Result BorrowedMessage) × BaseConsumer) {d : BaseConsumer}
    → second_poll keys x ≡ sleeps keys' d
    → keys ≡ keys'
second-keys keys keys' (some r, c) h = cc
second-keys keys keys' (none, c) h = cc

first-keys :
    (b' : Broker) (w : Pending) (keys : List Key)
    (x : Option (Result BorrowedMessage) × BaseConsumer) {d : BaseConsumer}
    → (first_poll b' w x).0 ≡ sleeps keys d
    → (first_poll b' w x).1 ≡ keys
first-keys b' yields keys (some r, c) h = cc
first-keys b' (waits ks) keys (some r, c) h = cc
first-keys b' yields keys (none, c) h = cc
first-keys b' (waits ks) keys (none, c) h = second-keys ks keys (Poll.poll b' [] c) h

-- When `poll_next` goes to sleep, the notifications that it waits for are those that it has itself
-- called `notify_one` on in the same call.
pub poll_next-notifies :
    (b b' : Broker) (c d : BaseConsumer) (keys : List Key)
    → (poll_next b b' c).0 ≡ sleeps keys d
    → (poll_next b b' c).1 ≡ keys
unfolding poll_next
poll_next-notifies b b' c d keys h =
    first-keys b' (pending b (Poll.poll b [] c).1) keys (Poll.poll b [] c) h

until_found-some :
    (x : Option (Result BorrowedMessage) × BaseConsumer)
    (k : BaseConsumer → Option (Result BorrowedMessage) × BaseConsumer) {r : Result BorrowedMessage}
    → x.0 ≡ some r
    → Poll.until_found x k ≡ (some r, x.1)
until_found-some (some r', c) k h = cc
until_found-some (none, c) k h = cc

poll-some :
    (b : Broker) (later : List Broker) (c : BaseConsumer) {r : Result BorrowedMessage}
    → (Poll.poll_once b c).0 ≡ some r
    → Poll.poll b later c ≡ (some r, (Poll.poll_once b c).1)
unfolding Poll.poll
poll-some b [] c h = ap (λ o. (o, (Poll.poll_once b c).1)) h
poll-some b (b' ∷ later) c h = until_found-some (Poll.poll_once b c) (Poll.poll b' later) h

-- If the broker has a message at the position of an assigned partition that is not paused, `recv`
-- returns in its first round, with what that round's poll gives.
pub recv-Returns :
    (b : Broker) (later : List Broker) (c : BaseConsumer) (idx : ℕ) (elem : TopicPartitionElem)
    → get_elem? c.assigned_partitions.elements idx ≡ some elem
    → IsReady b c elem
    → (r : Result OwnedMessage) × (recv b later c ≡ (some r, (Poll.poll_once b c).1))
recv-Returns b later c idx elem at is_ready =
    let (r, now) = poll_once-some b c idx elem at is_ready in
    (detached r, recv-poll b later c ∙ ap detach_all (poll-some b later c now))

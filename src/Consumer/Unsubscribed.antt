-- ===== src/Consumer/Unsubscribed.antt =====
-- What a member of a group that unsubscribes leaves behind.
use rmem_queue.Base.{String, ◌≡◌, refl, false, none, some, List, [], string_eq, arith}
use rmem_queue.Backend
use rmem_queue.Base.Map
use rmem_queue.Base.Map.{get-insert_self}
use rmem_queue.Broker
use rmem_queue.Broker.{Broker}
use rmem_queue.Broker.Membership.{leave_group, all_metadata, all_counts}
use rmem_queue.Consumer.{Client, unsubscribe, leave}
use rmem_queue.ConsumerGroup
use rmem_queue.ConsumerGroup.{ConsumerGroup}
use rmem_queue.ConsumerGroup.Leave.{leave-gone}
use rmem_queue.Error.{ok}
use rmem_queue.Metadata.{Metadata}
use rmem_queue.Poll.{poll_once}

leave_group_lem :
    (order : List String → List String) (b : Broker) (gid m : String) (g : ConsumerGroup)
    (meta : Metadata)
    → b.shutdown ≡ false
    → Map.get gid b.consumer_groups ≡ some g
    → Backend.metadata b.backend b.config.broker_id none ≡ ok meta
    → leave_group order gid m b ≡ (
      ok tt,
      record b {
        consumer_groups =
            Map.insert gid
              (ConsumerGroup.leave order g m (all_counts meta.topics)).1
              b.consumer_groups;
      },
    )
unfolding leave_group all_metadata Broker.check_shutdown
leave_group_lem order b gid m g meta up known readable =
    ground (arith, up, known, readable, (leave-gone order g m (all_counts meta.topics)).0)

-- When a member of a known group unsubscribes at a broker that is not shut down and can report its
-- topics, it succeeds: the group has no assignment for it any more, the consumer has no subscription,
-- position or paused partition left, and polls nothing, whatever broker it finds.
pub unsubscribe-left :
    (order : List String → List String) (w : Client) (gid : String) (g : ConsumerGroup)
    (meta : Metadata) (b : Broker)
    → w.broker.shutdown ≡ false
    → w.consumer.group_id ≡ some gid
    → Map.get gid w.broker.consumer_groups ≡ some g
    → Backend.metadata w.broker.backend w.broker.config.broker_id none ≡ ok meta
    → let (r, w') = unsubscribe order w in
      (r ≡ ok tt)
      × ((g' : ConsumerGroup) × (Map.get gid w'.broker.consumer_groups ≡ some g')
          × (ConsumerGroup.assignment g' w.consumer.member_id ≡ none))
      × (w'.consumer.subscribed_topics ≡ [])
      × (w'.consumer.position ≡ [])
      × (w'.consumer.paused ≡ [])
      × (poll_once b w'.consumer ≡ (none, w'.consumer))
unfolding unsubscribe leave poll_once
unsubscribe-left order w gid g meta b up member known readable =
    let m = w.consumer.member_id in
    let g' = (ConsumerGroup.leave order g m (all_counts meta.topics)).1 in
    let left = leave_group_lem order w.broker gid m g meta up known readable in
    rw (member, left)
      (
        refl,
        (
          g',
          get-insert_self gid g' w.broker.consumer_groups,
          (leave-gone order g m (all_counts meta.topics)).1,
        ),
        refl,
        refl,
        refl,
        refl,
      )

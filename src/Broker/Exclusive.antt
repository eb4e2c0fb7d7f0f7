-- ===== src/Broker/Exclusive.antt =====
-- In the groups of a broker no partition has two readers.
use rmem_queue.Base.{
  ℤ, String, ◌≡◌, subst, sym, Option, none, some, List, [], ◌∷◌, ◌==◌, string_eq, Bool-cases,
  Option-cases, inl, inr,
}
use rmem_queue.Action.{Action, ◌>>=◌, reads}
use rmem_queue.Action.Keeps.{Keeps, bind-Keeps, reads-Keeps, pure-Keeps, Yields, bind-Keeps_yielded}
use rmem_queue.Assignor.Topics.{IsOrder}
use rmem_queue.Backend.{InMemoryBackend}
use rmem_queue.Base.Map
use rmem_queue.Base.Map.{Map, get-insert}
use rmem_queue.Broker.{Broker, check_shutdown, on_backend, ensure_topic, num_partitions, choose}
use rmem_queue.Broker.Groups.{found_group, group_cases}
use rmem_queue.Broker.Membership.{
  ensure_topics, join_group, leave_group, group_or_new, find_group, on_group, all_metadata,
  counts_of, all_counts,
}
use rmem_queue.ConsumerGroup
use rmem_queue.ConsumerGroup.{ConsumerGroup}
use rmem_queue.ConsumerGroup.Exclusive.{
  IsExclusive, nobody-IsExclusive, join-IsExclusive, leave-IsExclusive,
}
use rmem_queue.Error.{Result, ok}
use rmem_queue.Headers.{Bytes}

pub record AreExclusive (groups : Map String ConsumerGroup) : Type 0 where
  pub each :
      (gid : String) (g : ConsumerGroup)
      → Map.get gid groups ≡ some g
      → IsExclusive g.state.assignments

abbrev pub HasOneReader : Broker → Type 0
HasOneReader b = AreExclusive b.consumer_groups

-- A call that leaves the groups.
leaves_groups :
    {A : Type 0} (m : Action Broker A)
    → ((b : Broker) → (m b).1.consumer_groups ≡ b.consumer_groups)
    → Keeps HasOneReader m
leaves_groups m same = record { keeps = λ b v. subst AreExclusive (sym (same b)) v }

pub on_backend-Keeps :
    {A : Type 0} (f : InMemoryBackend → Result A × InMemoryBackend)
    → Keeps HasOneReader (on_backend f)
on_backend-Keeps f = record { keeps = λ b v. v }

pub ensure_topic-Keeps :
    (topic : String)
    → Keeps HasOneReader (λ b. ensure_topic topic b.config.default_num_partitions b)
unfolding ensure_topic
ensure_topic-Keeps topic = record { keeps = λ b v. v }

ensure_topics-Keeps : (topics : List String) → Keeps HasOneReader (ensure_topics topics)
unfolding ensure_topics
ensure_topics-Keeps [] = pure-Keeps tt
ensure_topics-Keeps (topic ∷ topics) =
    bind-Keeps (ensure_topic-Keeps topic) λ _. ensure_topics-Keeps topics

pub choose-Keeps :
    (topic : String) (p : Option ℤ) (key : Option Bytes) (count : ℤ)
    → Keeps HasOneReader (choose topic p key count)
unfolding choose
choose-Keeps topic (some p) key count = record { keeps = λ b v. v }
choose-Keeps topic none key count = record { keeps = λ b v. v }

all_metadata-Keeps : Keeps HasOneReader all_metadata
unfolding all_metadata
all_metadata-Keeps = record { keeps = λ b v. v }

pub num_partitions-Keeps : (topic : String) → Keeps HasOneReader (num_partitions topic)
unfolding num_partitions
num_partitions-Keeps topic = record { keeps = λ b v. v }

on_group-Keeps :
    {A : Type 0} (gid : String) (g : ConsumerGroup) (f : ConsumerGroup → Result A × ConsumerGroup)
    → IsExclusive (f g).1.state.assignments
    → Keeps HasOneReader (on_group gid g f)
on_group-Keeps gid g f after = record {
  keeps = λ b v. record {
    each = λ j h e. elim (Bool-cases (gid == j)) [
      | inl same ↦
          let is : (f g).1 ≡ h = cc (get-insert gid j (f g).1 b.consumer_groups, same, e) in
          subst (λ (x : ConsumerGroup). IsExclusive x.state.assignments) is after
      | inr other ↦ v.each j h (cc (get-insert gid j (f g).1 b.consumer_groups, other, e))
    ];
  };
}

group_or_new-IsExclusive :
    (gid : String) (b : Broker)
    → HasOneReader b
    → IsExclusive (group_or_new b gid).state.assignments
unfolding ConsumerGroup.new
group_or_new-IsExclusive gid b v = elim (group_cases gid b) [
  | inl e ↦
      subst (λ (x : ConsumerGroup). IsExclusive x.state.assignments) (sym e) nobody-IsExclusive
  | inr e ↦ v.each gid (group_or_new b gid) e
]

found_group-Keeps : (gid : String) → Keeps HasOneReader (found_group gid)
found_group-Keeps gid = record {
  keeps = λ b v.
      (on_group-Keeps gid (group_or_new b gid) (λ g. (ok g, g))
          (group_or_new-IsExclusive gid b v)).keeps
        b v;
}

abbrev Exclusive : ConsumerGroup → Type 0
Exclusive g = IsExclusive g.state.assignments

found_group-Yields : (gid : String) → Yields HasOneReader Exclusive (found_group gid)
found_group-Yields gid = record {
  yields = λ b v g e.
      let is : group_or_new b gid ≡ g = cc in subst Exclusive is (group_or_new-IsExclusive gid b v);
}

find_group-Yields : (gid : String) → Yields HasOneReader Exclusive (reads λ b. find_group b gid)
find_group-Yields gid = record {
  yields = λ b v g e. elim (Option-cases (Map.get gid b.consumer_groups)) [
    | inl none_e ↦ cc
    | inr (g', found) ↦ let is : g' ≡ g = cc in subst Exclusive is (v.each gid g' found)
  ];
}

pub join_group-Keeps :
    (order : List String → List String)
    → IsOrder order
    → (gid m : String) (topics : List String) → Keeps HasOneReader (join_group order gid m topics)
unfolding join_group
join_group-Keeps order o gid m topics = bind-Keeps (reads-Keeps check_shutdown) λ _.
    bind-Keeps (ensure_topics-Keeps topics) λ _. bind-Keeps (found_group-Keeps gid) λ g.
      bind-Keeps all_metadata-Keeps λ metas.
        on_group-Keeps gid g (λ h. ConsumerGroup.join order h m topics (counts_of metas topics))
          (join-IsExclusive order o g m topics (counts_of metas topics))

pub leave_group-Keeps :
    (order : List String → List String)
    → IsOrder order
    → (gid m : String) → Keeps HasOneReader (leave_group order gid m)
unfolding leave_group
leave_group-Keeps order o gid m = bind-Keeps (reads-Keeps check_shutdown) λ _.
    bind-Keeps_yielded
      {f = λ g. all_metadata >>= λ metas.
        on_group gid g λ h. ConsumerGroup.leave order h m (all_counts metas)}
      (reads-Keeps λ b. find_group b gid) (find_group-Yields gid)
      λ g before. bind-Keeps all_metadata-Keeps λ metas.
        on_group-Keeps gid g (λ h. ConsumerGroup.leave order h m (all_counts metas))
          (leave-IsExclusive order o g m (all_counts metas) before)

-- ===== src/Broker/Groups.antt =====
-- The calls on groups keep the invariant of the broker.
use rmem_queue.Base.{
  ℤ, String, ◌≡◌, ap, ◌∙◌, some, List, string_eq, Option-cases, ◌⊎◌, inl, inr, arith,
}
use rmem_queue.Action.{Action, ◌>>=◌, reads}
use rmem_queue.Action.Keeps.{Keeps, bind-Keeps, reads-Keeps, Yields, bind-Keeps_yielded}
use rmem_queue.Base.Map
use rmem_queue.Base.Map.{Map, get-insert}
use rmem_queue.Broker.{Broker, check_shutdown}
use rmem_queue.Broker.Membership.{
  join_group, leave_group, commit_offset, group_or_new, find_group, on_group, all_metadata,
  on_store, counts_of, all_counts,
}
use rmem_queue.Broker.Valid.{IsBroker, on_group-Keeps, ensure_topics-Keeps}
use rmem_queue.Config.{BrokerConfig}
use rmem_queue.ConsumerGroup
use rmem_queue.ConsumerGroup.{ConsumerGroup, GroupState, rebalance, registered, unregistered}
use rmem_queue.Error.{Result, ok}
use rmem_queue.OffsetStore.{InMemoryOffsetStore}

join-group_id :
    (order : List String → List String) (g : ConsumerGroup) (m : String) (topics : List String)
    (counts : Map String ℤ)
    → (ConsumerGroup.join order g m topics counts).1.group_id ≡ g.group_id
unfolding ConsumerGroup.join
join-group_id order g m topics counts = ground arith

leave-group_id :
    (order : List String → List String) (g : ConsumerGroup) (m : String) (counts : Map String ℤ)
    → (ConsumerGroup.leave order g m counts).1.group_id ≡ g.group_id
unfolding ConsumerGroup.leave
leave-group_id order g m counts = ground arith

pub group_cases :
    (gid : String) (b : Broker)
    → (group_or_new b gid ≡ ConsumerGroup.new gid)
      ⊎ (Map.get gid b.consumer_groups ≡ some (group_or_new b gid))
group_cases gid b = ground arith

-- The group that `join_group` finds or makes.
abbrev pub found_group : String → Action Broker ConsumerGroup
found_group gid = λ b. on_group gid (group_or_new b gid) (λ g. (ok g, g)) b

module _ {c : BrokerConfig} where
  group_or_new-named :
      (gid : String) (b : Broker) → IsBroker c b → (group_or_new b gid).group_id ≡ gid
  unfolding ConsumerGroup.new
  group_or_new-named gid b v = elim (group_cases gid b) [
    | inl e ↦ ap (λ (g : ConsumerGroup). g.group_id) e
    | inr e ↦ v.named gid (group_or_new b gid) e
  ]

  found_group-Keeps : (gid : String) → Keeps (IsBroker c) (found_group gid)
  found_group-Keeps gid = record {
    keeps = λ b v.
        (on_group-Keeps gid (group_or_new b gid) (λ g. (ok g, g))
            (group_or_new-named gid b v)).keeps
          b v;
  }

  found_group-Yields :
      (gid : String)
      → Yields (IsBroker c) (λ (g : ConsumerGroup). g.group_id ≡ gid) (found_group gid)
  found_group-Yields gid = record { yields = λ b v g e. cc (group_or_new-named gid b v, e) }

  find_group-Yields :
      (gid : String)
      → Yields (IsBroker c) (λ (g : ConsumerGroup). g.group_id ≡ gid) (reads λ b. find_group b gid)
  find_group-Yields gid = record {
    yields = λ b v g e. elim (Option-cases (Map.get gid b.consumer_groups)) [
      | inl none_e ↦ cc
      | inr (g', found) ↦ cc (v.named gid g' found, e, found)
    ];
  }

  all_metadata-Keeps : Keeps (IsBroker c) all_metadata
  unfolding all_metadata
  all_metadata-Keeps = record { keeps = λ b v. v }

  pub join_group-Keeps :
      (order : List String → List String) (gid m : String) (topics : List String)
      → Keeps (IsBroker c) (join_group order gid m topics)
  unfolding join_group
  join_group-Keeps order gid m topics = bind-Keeps (reads-Keeps check_shutdown) λ _.
      bind-Keeps (ensure_topics-Keeps topics) λ _.
        bind-Keeps_yielded
          {f = λ g. all_metadata >>= λ metas.
            on_group gid g λ h. ConsumerGroup.join order h m topics (counts_of metas topics)}
          (found_group-Keeps gid) (found_group-Yields gid)
          λ g named. bind-Keeps all_metadata-Keeps λ metas.
            on_group-Keeps gid g (λ h. ConsumerGroup.join order h m topics (counts_of metas topics))
              (join-group_id order g m topics (counts_of metas topics) ∙ named)

  pub leave_group-Keeps :
      (order : List String → List String) (gid m : String)
      → Keeps (IsBroker c) (leave_group order gid m)
  unfolding leave_group
  leave_group-Keeps order gid m = bind-Keeps (reads-Keeps check_shutdown) λ _.
      bind-Keeps_yielded
        {f = λ g. all_metadata >>= λ metas.
          on_group gid g λ h. ConsumerGroup.leave order h m (all_counts metas)}
        (reads-Keeps λ b. find_group b gid) (find_group-Yields gid)
        λ g named. bind-Keeps all_metadata-Keeps λ metas.
          on_group-Keeps gid g (λ h. ConsumerGroup.leave order h m (all_counts metas))
            (leave-group_id order g m (all_counts metas) ∙ named)

  on_store-Keeps :
      {A : Type 0} (f : InMemoryOffsetStore → Result A × InMemoryOffsetStore)
      → Keeps (IsBroker c) (on_store f)
  on_store-Keeps f = record {
    keeps = λ b v. record {
      backend = v.backend;
      stored_config = v.stored_config;
      config = v.config;
      count = v.count;
      counted = v.counted;
      named = v.named;
    };
  }

  pub commit_offset-Keeps :
      (gid topic : String) (partition o : ℤ)
      → Keeps (IsBroker c) (commit_offset gid topic partition o)
  unfolding commit_offset
  commit_offset-Keeps gid topic partition o = bind-Keeps (reads-Keeps check_shutdown) λ _.
      bind-Keeps (reads-Keeps λ b. find_group b gid)
        λ g. on_store-Keeps (λ store. ConsumerGroup.commit_offset store g topic partition o)

-- ===== src/OffsetStore.antt =====
-- src/offset_store.rs: committed offsets by group, topic and partition.
use rmem_queue.Base.{ℤ, String, Option, [], int_eq, string_eq, pair_eq}
use rmem_queue.Base.Map
use rmem_queue.Base.Map.{Map}
use rmem_queue.Error.{Result, ok}

abbrev pub Key : Type 0
Key = String × (String × ℤ)

pub record InMemoryOffsetStore : Type 0 where
  pub offsets : Map Key ℤ

unfoldable pub new : InMemoryOffsetStore
new = record { offsets = [] }

unfoldable pub commit :
    InMemoryOffsetStore → String → String → ℤ → ℤ → Result (Unit {0}) × InMemoryOffsetStore
commit s group_id topic partition offset =
    (ok tt, record { offsets = Map.insert (group_id, (topic, partition)) offset s.offsets })

unfoldable pub committed : InMemoryOffsetStore → String → String → ℤ → Result (Option ℤ)
committed s group_id topic partition = ok (Map.get (group_id, (topic, partition)) s.offsets)

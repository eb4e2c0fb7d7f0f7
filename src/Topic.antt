-- ===== src/Topic.antt =====
-- src/topic.rs: a topic is a fixed number of partitions.
pub mod Laws
pub mod Valid
use rmem_queue.Base.{
  ℕ, zero, suc, ◌+◌, ℤ, pos, pos_part, ltb_ℤ, leb, String, ◌||◌, Option, List, [], ◌∷◌, length,
  get_elem?, set, if◌then◌else◌,
}
use rmem_queue.Error.{partition_out_of_range, Result, ok, err, panic, or_panic, ◌>>=◌}
use rmem_queue.Headers.{Bytes, OwnedHeaders}
use rmem_queue.Message.{DynAny, StoredMessage}
use rmem_queue.Partition
use rmem_queue.Partition.{Partition, PartitionConfig, Clock}

pub record Topic : Type 0 where
  pub name : String
  pub partitions : List Partition
  pub partition_count : ℤ
  pub config : PartitionConfig

-- `(id..id + n).map(|id| Partition::new(name, id, config))`
unfoldable pub new_partitions : String → PartitionConfig → ℕ → ℕ → List Partition
new_partitions name config id zero = []
new_partitions name config id (suc n) =
    Partition.new name (pos id) config ∷ new_partitions name config (id + 1) n

-- The range `0..num_partitions` is empty for a negative count, which is stored all the same.
unfoldable pub new : String → ℤ → PartitionConfig → Topic
new name num_partitions config = record {
  name = name;
  partitions = new_partitions name config 0 (pos_part num_partitions);
  partition_count = num_partitions;
  config = config;
}

unfoldable pub get_partition : Topic → ℤ → Result Partition
get_partition t id =
    if ltb_ℤ id (pos 0) || leb (length t.partitions) (pos_part id)
    then err (partition_out_of_range t.name id)
    else or_panic (get_elem? t.partitions (pos_part id))

-- `get_partition` hands out the shared partition; what a call does to it is written back here.
abbrev pub with_partition :
    {A : Type 0} → Topic → ℤ → (Partition → Result A × Partition) → Result A × Topic
with_partition t id f = elim (get_partition t id) [
  | ok p ↦ let (r, p') = f p in (r, record t { partitions = set t.partitions (pos_part id) p' })
  | err e ↦ (err e, t)
  | panic ↦ (panic, t)
]

unfoldable pub produce :
    Clock
    → Topic
    → ℤ
    → Option Bytes
    → Option Bytes
    → Option OwnedHeaders
    → Option ℤ
    → Result (ℤ × ℤ) × Topic
produce clock t partition key payload headers timestamp =
    with_partition t partition λ p. Partition.append clock p key payload headers timestamp

unfoldable pub produce_typed :
    Clock
    → Topic
    → ℤ
    → DynAny
    → Option DynAny
    → Option OwnedHeaders
    → Option ℤ
    → Result (ℤ × ℤ) × Topic
produce_typed clock t partition typed_payload typed_key headers timestamp =
    with_partition t partition
      λ p. Partition.append_typed clock p typed_payload typed_key headers timestamp

unfoldable pub fetch : Topic → ℤ → ℤ → ℕ → Result (List StoredMessage)
fetch t partition offset max_count =
    get_partition t partition >>= λ p. Partition.read p offset max_count

unfoldable pub fetch_one : Topic → ℤ → ℤ → Result (Option StoredMessage)
fetch_one t partition offset = get_partition t partition >>= λ p. Partition.read_one p offset

unfoldable pub watermarks : Topic → ℤ → Result (ℤ × ℤ)
watermarks t partition = get_partition t partition >>= λ p. ok (Partition.watermarks p)

-- A partition's `PartitionNotify` is named by the index of the partition.
unfoldable pub get_partition_notify : Topic → ℤ → Result ℤ
get_partition_notify t id = get_partition t id >>= λ p. ok id

-- `notify` on the shared notification of a partition.
unfoldable pub notify_partition : Topic → ℤ → Topic
notify_partition t id = (with_partition t id λ p. (ok tt, record p { notified = p.notified + 1 })).1

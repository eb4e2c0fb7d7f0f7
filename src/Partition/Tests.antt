-- ===== src/Partition/Tests.antt =====
-- A partition at work: the theorems at a concrete log.
use rmem_queue.Base.{
  ℕ, ◌+◌, ◌-◌, ◌≤◌, ℤ, pos, ◌≡◌, refl, ◌↔◌, none, some, List, [], ◌∷◌, length, take, drop, arith,
}
use rmem_queue.Error.{ok}
use rmem_queue.Message
use rmem_queue.Message.{StoredMessage}
use rmem_queue.Partition
use rmem_queue.Partition.{
  Partition, PartitionConfig, Clock, append, read, read_one, evict_log, capacity_eviction, store,
  build_policies, watermarks, message_count, evict,
}
use rmem_queue.Partition.Append.{IsNumbered}
use rmem_queue.Partition.Capacity.{capacity_bound}
use rmem_queue.Partition.Evict.{IsLeastDrop, evict_log_least}
use rmem_queue.Partition.Runs.{Op, appends, evicts, run, reached, history, reached-read_one}
use rmem_queue.Partition.Spec.{IsLog, spec_read_one, read_refines}
use rmem_queue.Partition.Watermarks.{watermarks_exact}

abbrev clock : Clock
clock = record { wall = pos 1700; created = 5; checked = 7 }

-- At most three messages in the log, which is one more than stay.
abbrev small : PartitionConfig
small = record { max_capacity = 3; retention_ms = none; retention_capacity = none }

abbrev sends : ℕ → Op
sends byte = appends clock none (some (byte ∷ [])) none none

abbrev ops : List Op
ops = sends 1 ∷ sends 2 ∷ sends 3 ∷ evicts 9 ∷ []

abbrev message : ℕ → ℕ → StoredMessage
message byte o = Message.new none (some (byte ∷ [])) "t" (pos 0) (pos o) (pos 1700) none 5

abbrev log : List StoredMessage
log = message 1 0 ∷ message 2 1 ∷ message 3 2 ∷ []

-- The three messages with the first dropped.
abbrev trimmed : Partition
trimmed = record {
  topic_name = "t";
  partition_id = pos 0;
  buffer = record { log = drop 1 log; next_offset = 3; max_capacity = 3; policies = [] };
  notified = 3;
}

trimmed-IsLog : IsLog trimmed log 1
trimmed-IsLog = record { within = omega arith; next = refl; kept = refl }

reached-read_one_example :
    (start : ℕ) × ((o : ℤ)
      → read_one (reached "t" (pos 0) small ops) o
        ≡ spec_read_one (reached "t" (pos 0) small ops) (history "t" (pos 0) small ops) start o)
    × IsNumbered
        (reached "t" (pos 0) small ops).topic_name
        (reached "t" (pos 0) small ops).partition_id
        (history "t" (pos 0) small ops)
reached-read_one_example = reached-read_one "t" (pos 0) small ops

read_refines_example : read trimmed (pos 1) 5 ≡ ok (take 5 (drop 1 log))
read_refines_example = read_refines trimmed-IsLog 1 5 (omega arith) (omega arith) (omega arith)

evict_log_least_example : (k : ℕ) × IsLeastDrop (capacity_eviction 2 ∷ []) 9 log k
evict_log_least_example = evict_log_least (capacity_eviction 2 ∷ []) 9 log

capacity_bound_example : length (run (Partition.new "t" (pos 0) small) ops).buffer.log + 1 ≤ 3
capacity_bound_example = capacity_bound "t" (pos 0) small ops (omega arith)

watermarks_exact_example :
    (watermarks trimmed ≡ (pos 1, pos (length log - 1)))
    × (message_count trimmed + 1 ≡ length log)
    × ((o : ℕ)
        → ((1 ≤ o) × (o ≤ length log - 1))
          ↔ ((m : StoredMessage) × (read_one trimmed (pos o) ≡ ok (some m))))
watermarks_exact_example = watermarks_exact trimmed-IsLog (omega arith)

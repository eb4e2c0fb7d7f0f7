-- ===== src/Consumer/Pausing.antt =====
-- `pause` and `resume` of src/base_consumer.rs.
use rmem_queue.Base.{List, [], ◌∷◌, nat_eq, int_eq, string_eq, pair_eq}
use rmem_queue.Base.Map
use rmem_queue.Base.Map.{Map}
use rmem_queue.TopicPartition.{TopicPartitionElem, TopicPartitionList}
use rmem_queue.Consumer.{BaseConsumer, PartitionKey}

unfoldable pub pause_elements :
    Map PartitionKey (Unit {0}) → List TopicPartitionElem → Map PartitionKey (Unit {0})
pause_elements m [] = m
pause_elements m (elem ∷ elems) =
    pause_elements (Map.insert (elem.topic, elem.partition) tt m) elems

unfoldable pub pause : BaseConsumer → TopicPartitionList → BaseConsumer
pause c partitions = record c { paused = pause_elements c.paused partitions.elements }

unfoldable pub resume_elements :
    Map PartitionKey (Unit {0}) → List TopicPartitionElem → Map PartitionKey (Unit {0})
resume_elements m [] = m
resume_elements m (elem ∷ elems) = resume_elements (Map.remove (elem.topic, elem.partition) m) elems

unfoldable pub resume : BaseConsumer → TopicPartitionList → BaseConsumer
resume c partitions = record c { paused = resume_elements c.paused partitions.elements }

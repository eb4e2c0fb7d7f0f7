-- ===== src/Consumer/Paused.antt =====
-- What pausing and resuming change.
use rmem_queue.Base.{
  ◌≡◌, refl, ◌∙◌, Bool, not, ◌&&◌, ◌||◌, none, some, List, [], ◌∷◌, any, ◌==◌, int_eq, string_eq,
  pair_eq, arith, if◌then◌else◌,
}
use rmem_queue.Base.Map
use rmem_queue.Base.Map.{Map, get-insert, get-remove}
use rmem_queue.Consumer.{BaseConsumer, PartitionKey}
use rmem_queue.Consumer.Pausing.{pause_elements, pause, resume_elements, resume}
use rmem_queue.Poll.{is_paused}
use rmem_queue.TopicPartition.{TopicPartitionElem, TopicPartitionList}

-- The list names the partition.
abbrev pub listed : List TopicPartitionElem → PartitionKey → Bool
listed elems k = any (λ (e : TopicPartitionElem). (e.topic, e.partition) == k) elems

get-pause_elements :
    (m : Map PartitionKey (Unit {0})) (elems : List TopicPartitionElem) (k : PartitionKey)
    → Map.get k (pause_elements m elems) ≡ (if listed elems k then some tt else Map.get k m)
unfolding pause_elements
get-pause_elements m [] k = refl
get-pause_elements m (e ∷ elems) k =
    get-pause_elements (Map.insert (e.topic, e.partition) tt m) elems k
    ∙ ground (arith, get-insert (e.topic, e.partition) k tt m)

get-resume_elements :
    (m : Map PartitionKey (Unit {0})) (elems : List TopicPartitionElem) (k : PartitionKey)
    → Map.get k (resume_elements m elems) ≡ (if listed elems k then none else Map.get k m)
unfolding resume_elements
get-resume_elements m [] k = refl
get-resume_elements m (e ∷ elems) k =
    get-resume_elements (Map.remove (e.topic, e.partition) m) elems k
    ∙ ground (arith, get-remove (e.topic, e.partition) k m)

-- After `pause` exactly the partitions listed and those paused before are paused, and after `resume`
-- those paused before and not listed.
pub paused_exact :
    (c : BaseConsumer) (partitions : TopicPartitionList) (elem : TopicPartitionElem)
    → let named = listed partitions.elements (elem.topic, elem.partition) in
      (is_paused (pause c partitions) elem ≡ named || is_paused c elem)
      × (is_paused (resume c partitions) elem ≡ not named && is_paused c elem)
unfolding pause resume
paused_exact c partitions elem =
    let k : PartitionKey = (elem.topic, elem.partition) in
    (
      ground (arith, get-pause_elements c.paused partitions.elements k),
      ground (arith, get-resume_elements c.paused partitions.elements k),
    )

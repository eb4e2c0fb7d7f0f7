-- ===== src/Producer/Owned.antt =====
-- The builder of `OwnedRecord` in src/stream_producer.rs, beside that of `BaseRecord`.
use rmem_queue.Base.{ℤ, String, ◌≡◌, refl, ap, ◌∙◌, none, some, List, [], ◌∷◌}
use rmem_queue.Headers.{Bytes, OwnedHeaders}
use rmem_queue.Partition.{Clock}
use rmem_queue.Producer.{BaseProducer, send, stream_send, OwnedRecord}
use rmem_queue.Producer.Sink.{from_record, verdict, stream_send-from_record}
use rmem_queue.Record.{BaseRecord, ToBytes, bytes_to_bytes}
use rmem_queue.Record

unfoldable pub to : String → OwnedRecord
to topic = record {
  topic = topic;
  partition = none;
  payload = none;
  key = none;
  timestamp = none;
  headers = none;
}

unfoldable pub partition : OwnedRecord → ℤ → OwnedRecord
partition o p = record o { partition = some p }

unfoldable pub payload : OwnedRecord → Bytes → OwnedRecord
payload o p = record o { payload = some p }

unfoldable pub key : OwnedRecord → Bytes → OwnedRecord
key o k = record o { key = some k }

unfoldable pub timestamp : OwnedRecord → ℤ → OwnedRecord
timestamp o ts = record o { timestamp = some ts }

unfoldable pub headers : OwnedRecord → OwnedHeaders → OwnedRecord
headers o h = record o { headers = some h }

-- A call of a builder, at the types of the borrowed record.
pub data Setter (K P : Type 0) : Type 0 where
  sets_partition sets_timestamp : ℤ → Setter K P
  sets_payload : P → Setter K P
  sets_key : K → Setter K P
  sets_headers : OwnedHeaders → Setter K P

module _ {K P : Type 0} where
  unfoldable pub set_field : BaseRecord K P → Setter K P → BaseRecord K P
  set_field r (sets_partition p) = Record.partition r p
  set_field r (sets_timestamp ts) = Record.timestamp r ts
  set_field r (sets_payload p) = Record.payload r p
  set_field r (sets_key k) = Record.key r k
  set_field r (sets_headers h) = Record.headers r h

  -- The calls from the left to the right.
  unfoldable pub build : BaseRecord K P → List (Setter K P) → BaseRecord K P
  build r [] = r
  build r (s ∷ setters) = build (set_field r s) setters

module _ {K P : Type 0} ⦃k : ToBytes K⦄ ⦃p : ToBytes P⦄ where
  -- The same call on an owned record, which takes bytes.
  unfoldable pub set_owned : OwnedRecord → Setter K P → OwnedRecord
  set_owned o (sets_partition q) = partition o q
  set_owned o (sets_timestamp ts) = timestamp o ts
  set_owned o (sets_payload x) = payload o (p.to_bytes x)
  set_owned o (sets_key x) = key o (k.to_bytes x)
  set_owned o (sets_headers h) = headers o h

  unfoldable pub build_owned : OwnedRecord → List (Setter K P) → OwnedRecord
  build_owned o [] = o
  build_owned o (s ∷ setters) = build_owned (set_owned o s) setters

  set_owned-from_record :
      (r : BaseRecord K P) (s : Setter K P)
      → set_owned (from_record r) s ≡ from_record (set_field r s)
  unfolding set_owned set_field from_record partition timestamp payload key headers Record.partition
      Record.timestamp Record.payload Record.key Record.headers
  set_owned-from_record r (sets_partition q) = refl
  set_owned-from_record r (sets_timestamp ts) = refl
  set_owned-from_record r (sets_payload x) = refl
  set_owned-from_record r (sets_key x) = refl
  set_owned-from_record r (sets_headers h) = refl

  build_owned-from_record :
      (r : BaseRecord K P) (setters : List (Setter K P))
      → build_owned (from_record r) setters ≡ from_record (build r setters)
  unfolding build_owned build
  build_owned-from_record r [] = refl
  build_owned-from_record r (s ∷ setters) =
      ap (λ o. build_owned o setters) (set_owned-from_record r s)
      ∙ build_owned-from_record (set_field r s) setters

  build_owned-to :
      (topic : String) (setters : List (Setter K P))
      → build_owned (to topic) setters ≡ from_record (build (Record.to topic) setters)
  unfolding to from_record Record.to
  build_owned-to topic setters = build_owned-from_record (Record.to topic) setters

  -- Whatever calls of the builder make a record, in whatever order and however often, the owned record
  -- that the same calls make is stored, reported and passed to the delivery callback by the stream
  -- producer as the record itself is by the base producer.
  pub built_alike :
      (clock : Clock) (producer : BaseProducer) (topic : String) (setters : List (Setter K P))
      → let (result, after) = stream_send clock producer (build_owned (to topic) setters) in
        let (result', after') = send clock producer (build (Record.to topic) setters) in
        (verdict result ≡ verdict result') × (after ≡ after')
  built_alike clock producer topic setters =
      rw (build_owned-to topic setters)
        (stream_send-from_record clock producer (build (Record.to topic) setters))

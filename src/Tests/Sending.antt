-- ===== src/Tests/Sending.antt =====
-- Clients and records, at concrete inputs.
use rmem_queue.Base.{
  ℕ, zero, suc, pos, ◌≡◌, refl, Option, none, some, List, [], ◌∷◌, get_elem?, ◌+◌, ◌%◌, arith,
  string_eq,
}
use rmem_queue.Base.Map
use rmem_queue.Broker
use rmem_queue.Broker.{fetch_one_from_position}
use rmem_queue.Config
use rmem_queue.Error.{ok}
use rmem_queue.Headers.{Bytes}
use rmem_queue.Message.{StoredMessage, BorrowedMessage}
use rmem_queue.Message.Access.{borrowed_message, decode_key, decode_payload}
use rmem_queue.Partitioner.{round_robin}
use rmem_queue.Partitioner.Turns.{routes, routes_turns}
use rmem_queue.Producer.{send, stream_send, sent}
use rmem_queue.Producer.Json.{send_json-decode}
use rmem_queue.Producer.Owned
use rmem_queue.Producer.Owned.{
  Setter, sets_payload, sets_partition, build, build_owned, built_alike,
}
use rmem_queue.Producer.Sink.{verdict}
use rmem_queue.Record
use rmem_queue.Record.{BaseRecord, bytes_to_bytes}
use rmem_queue.Record.Text.{
  Utf8, Json, IsJson, string_to_bytes, string_from_bytes, serde_from_bytes, to_json_bytes, wrapped,
  written,
}
use rmem_queue.Registry
use rmem_queue.Registry.{Registry}
use rmem_queue.Registry.Clients
use rmem_queue.Registry.Makers.{
  Maker, base_producer, typed_consumer, stream_producer, configured, from_config, make, make_all,
  all_at, makers_share,
}
use rmem_queue.Tests.Fixtures.{
  client, clock, config-KeepsAll, message_record, produced, producer, reported, started-IsBroker,
}

-- Texts of the characters below 128, by their codes.
abbrev ascii : Utf8 Bytes
ascii = record { as_bytes = λ s. s; from_utf8 = λ d. some d; from-as_bytes = λ s. refl }

-- Positive numbers as one byte; zero cannot be written.
abbrev write_byte : ℕ → Option Bytes
write_byte zero = none
write_byte (suc n) = some (suc n ∷ [])

abbrev read_byte : Bytes → Option ℕ
read_byte [] = none
read_byte (n ∷ d) = some n

abbrev bytewise : Json ℕ
bytewise = record { to_vec = write_byte; from_slice = read_byte }

read-write : (x : ℕ) (d : Bytes) → write_byte x ≡ some d → read_byte d ≡ some x
read-write zero d h = cc
read-write (suc n) [] h = cc
read-write (suc n) (k ∷ d) h = ground (arith, h)

bytewise-IsJson : IsJson bytewise
bytewise-IsJson = record { refuses_empty = refl; from-to = read-write }

json_payload : message_record.payload ≡ some (to_json_bytes bytewise 1)
unfolding to_json_bytes
json_payload = refl

json_sent : (send ⦃k = string_to_bytes ascii⦄ clock producer message_record).0 ≡ sent reported
unfolding send
json_sent = rw produced refl

send_json-decode_example :
    (m : StoredMessage) × (fetch_one_from_position
        (send ⦃k = string_to_bytes ascii⦄ clock producer message_record).1.broker
        "t"
        (pos 0)
        (some (pos 0))
        none
      ≡ ok (some m))
    × (decode_key {M = BorrowedMessage} ⦃f = string_from_bytes ascii⦄ (record { inner = m }) ≡ none)
    × (decode_payload {M = BorrowedMessage} ⦃f = serde_from_bytes bytewise⦄ (record { inner = m })
        ≡ wrapped bytewise (written bytewise 1))
send_json-decode_example =
    send_json-decode ascii bytewise clock producer message_record 1 reported none bytewise-IsJson
      started-IsBroker config-KeepsAll json_payload json_sent

abbrev setters : List (Setter Bytes Bytes)
setters = sets_payload (1 ∷ []) ∷ sets_partition (pos 0) ∷ sets_payload (2 ∷ []) ∷ []

built_alike_example :
    let (result, after) = stream_send clock producer (build_owned (Owned.to "t") setters) in
    let (result', after') = send clock producer (build (Record.to "t") setters) in
    (verdict result ≡ verdict result') × (after ≡ after')
built_alike_example = built_alike clock producer "t" setters

abbrev nobody : Registry
nobody = record { heap = []; weak = [] }

made : (make nobody client (configured base_producer)).0 ≡ ok 0
unfolding make from_config Clients.new_producer Registry.get_or_create Registry.find_live
    Registry.register Config.get Map.get Broker.new Config.from_config Config.parsed_value
made = refl

abbrev makers : List Maker
makers = typed_consumer "m" 0 ∷ configured stream_producer ∷ []

makers_share_example :
    make_all (make nobody client (configured base_producer)).1 client makers
    ≡ (all_at 0 makers, (make nobody client (configured base_producer)).1)
makers_share_example = makers_share nobody client (configured base_producer) makers 0 made

abbrev keyless : List (Option Bytes)
keyless = none ∷ some (7 ∷ []) ∷ none ∷ []

routes_turns_example :
    get_elem? (routes (round_robin (pos 5)) "t" keyless (pos 2)) 2 ≡ some (pos ((5 + 2) % 2))
routes_turns_example =
    routes_turns "t" keyless 5 2 2 (omega arith) (omega arith) (omega arith) (omega arith)

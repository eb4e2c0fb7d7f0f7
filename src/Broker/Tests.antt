-- ===== src/Broker/Tests.antt =====
-- A broker at work: the theorems at concrete calls.
use rmem_queue.Base.{
  pos, ◌≡◌, refl, none, some, List, [], ◌∷◌, ◌==◌, string_eq, int_eq, pair_eq, arith, if◌then◌else◌,
}
use rmem_queue.Backend
use rmem_queue.Backend.{InMemoryBackend}
use rmem_queue.Backend.Valid.{new-IsBackend}
use rmem_queue.Base.Map
use rmem_queue.Broker
use rmem_queue.Broker.{
  Broker, RecordMetadata, with_config, produce, produce_typed, fetch, fetch_one_from_position,
  metadata, watermarks, shutdown_broker,
}
use rmem_queue.Broker.Membership.{commit_offset, committed_offset, join_group, leave_group}
use rmem_queue.Broker.Offsets.{committed-commit, shutdown_refuses_all, key_of}
use rmem_queue.Broker.RoundTrip.{produce-fetch_one_from_position}
use rmem_queue.Broker.Runs.{Call, produces, joins, commits, shuts_down, run, reached-IsBroker}
use rmem_queue.Broker.Valid.{IsBroker}
use rmem_queue.Consumer
use rmem_queue.Consumer.{BaseConsumer, Client}
use rmem_queue.Consumer.Commits.{commit_message}
use rmem_queue.Consumer.Commit.{resume-commit_message}
use rmem_queue.ConsumerGroup
use rmem_queue.ConsumerGroup.{ConsumerGroup}
use rmem_queue.Error.{ok, err, broker_shutdown}
use rmem_queue.Message
use rmem_queue.Message.{StoredMessage, BorrowedMessage, DynAny}
use rmem_queue.Poll.{poll_once}
use rmem_queue.Poll.Found.{Polled, poll_once-Polled}
use rmem_queue.Record.{bytes_to_bytes}
use rmem_queue.Tests.Fixtures.{
  clock, client, config, started, new-started, started-IsBroker, config-KeepsAll, reported, filled,
  produced, reader,
}

produce-fetch_one_from_position_example :
    fetch_one_from_position
      (produce clock "t" none none (some (1 ∷ [])) none none started).1
      "t"
      (pos 0)
      (some (pos 0))
      none
    ≡ ok (some (Message.new none (some (1 ∷ [])) "t" (pos 0) (pos 0) (pos 1700) none 5))
produce-fetch_one_from_position_example =
    produce-fetch_one_from_position clock "t" none none (some (1 ∷ [])) none none started reported
      none started-IsBroker config-KeepsAll produced

abbrev calls : List Call
calls =
    produces clock "t" none none (some (1 ∷ [])) none none
    ∷ joins (λ topics. topics) "g" "m" ("t" ∷ [])
    ∷ commits "g" "t" (pos 0) (pos 1)
    ∷ shuts_down
    ∷ []

reached-IsBroker_example : IsBroker config (run started calls)
reached-IsBroker_example = reached-IsBroker client started 1 calls new-started refl

-- A broker with one group.
abbrev grouped : Broker
grouped = record started { consumer_groups = ("g", ConsumerGroup.new "g") ∷ [] }

grouped-IsBroker : IsBroker config grouped
unfolding Map.get ConsumerGroup.new Backend.new
grouped-IsBroker = record {
  backend = new-IsBackend config;
  stored_config = refl;
  config = refl;
  count = 1;
  counted = refl;
  named = λ gid g e. ground (arith, string_eq.beq_iff "g" gid);
}

known : Map.get "g" grouped.consumer_groups ≡ some (ConsumerGroup.new "g")
unfolding Map.get
known = refl

committed-commit_example :
    committed_offset (commit_offset "g" "t" (pos 0) (pos 7) grouped).1 "g" "t" (pos 1) ≡ (
      if key_of "g" "t" (pos 0) == key_of "g" "t" (pos 1)
      then ok (some (pos 7))
      else committed_offset grouped "g" "t" (pos 1))
committed-commit_example =
    committed-commit grouped grouped-IsBroker refl "g" "t" (pos 0) (pos 7) (ConsumerGroup.new "g")
      known "g" "t" (pos 1) (ConsumerGroup.new "g") known

abbrev member : Client
member = record { consumer = Consumer.new (some "g") "m" 0; broker = grouped; callbacks = [] }

abbrev read_message : BorrowedMessage
read_message = record {
  inner = Message.new none (some (1 ∷ [])) "t" (pos 0) (pos 4) (pos 1700) none 5;
}

resume-commit_message_example :
    Broker.resume_offset (commit_message read_message member).1.broker "t" (pos 0) none (some "g")
    ≡ ok (pos 6)
unfolding Consumer.new
resume-commit_message_example =
    resume-commit_message member read_message "g" (ConsumerGroup.new "g") 4 grouped-IsBroker refl
      refl known refl (omega arith)

abbrev any_value : DynAny
any_value = record { type_id = 1; value = 2 }

shutdown_refuses_all_example :
    let down = (shutdown_broker started).1 in
    (produce clock "t" none none none none none down ≡ (err broker_shutdown, down))
    × (produce_typed clock "t" none any_value none none none down ≡ (err broker_shutdown, down))
    × (fetch down "t" (pos 0) (pos 0) 1 ≡ err broker_shutdown)
    × (fetch_one_from_position down "t" (pos 0) none none ≡ err broker_shutdown)
    × (metadata down (some "t") ≡ err broker_shutdown)
    × (watermarks down "t" (pos 0) ≡ err broker_shutdown)
    × (join_group (λ l. l) "g" "m" [] down ≡ (err broker_shutdown, down))
    × (leave_group (λ l. l) "g" "m" down ≡ (err broker_shutdown, down))
    × (commit_offset "g" "t" (pos 0) (pos 0) down ≡ (err broker_shutdown, down))
    × (committed_offset down "g" "t" (pos 0) ≡ err broker_shutdown)
shutdown_refuses_all_example =
    shutdown_refuses_all started clock (λ l. l) "g" "m" "t" [] (pos 0) (pos 0) 1 none none none none
      any_value none none none none

poll_once-Polled_example : Polled filled reader (poll_once filled reader)
poll_once-Polled_example = poll_once-Polled filled reader

-- ===== src/Worker/Outbox.antt =====
-- crates/alloyport-worker/src/adapters/sqlite/attempt_store/outbox.rs: the durable outbox. A statement
-- is its effect on the rows; an error rolls the transaction back.
use alloyport.Prelude.{
  ℕ, ◌+◌, ltb, leb, ◌==◌, Bool, false, not, ◌&&◌, ◌||◌, none, some, List, [], ◌∷◌, push, any,
  length, is_some, if◌then◌else◌, Result, ok, err, ◌>>=◌,
}
use alloyport.Prelude.Text.{Text, text_eq}
use alloyport.Prelude.Maps.{get, put, remove}
use alloyport.Worker.Journal.{
  WorkerOutboxPayload, WorkerOutboxMessage, StoreOutboxOutcome, AttemptStoreError, Json, MessageRow,
  DeliveryRow, Journal, Committed, assignment_accepted, storage, encoding,
  conflicting_outbox_message, to_i64,
}

-- The payloads that `compatible_admission` compares by their identities alone.
unfoldable pub is_same_admission : WorkerOutboxPayload → WorkerOutboxPayload → Bool
unfolding text_eq
is_same_admission (assignment_accepted a t _) (assignment_accepted b u _) =
    text_eq a b && text_eq t u
is_same_admission _ _ = false

module _ (json : Json) where
  unfoldable pub compatible_admission :
      MessageRow → WorkerOutboxMessage → Result AttemptStoreError Bool
  unfolding is_same_admission text_eq
  compatible_admission row m =
      if text_eq row.attempt_id m.attempt_id
      then (elim (json.read_payload row.payload_json) [
        | none ↦ err encoding
        | some existing ↦ ok (is_same_admission existing m.payload)
      ])
      else ok false

  unfoldable pub enqueue_outbox_transaction :
      Journal → WorkerOutboxMessage → ℕ → Result AttemptStoreError (Committed StoreOutboxOutcome)
  unfolding compatible_admission get put to_i64 text_eq
  enqueue_outbox_transaction j m at_ms = elim (get j.messages m.message_id) [
    | some row ↦ do
      compatible ← compatible_admission row m
      (if not (text_eq row.payload_json (json.payload m.payload)) && not compatible
          then err (conflicting_outbox_message m.message_id)
          else ok (record { outcome = StoreOutboxOutcome.duplicate; journal = j }))
    | none ↦ do
      created ← to_i64 at_ms
      let row : MessageRow = record {
        attempt_id = m.attempt_id;
        payload_json = json.payload m.payload;
        created_at_ms = created;
      }
      ok (record {
        outcome = StoreOutboxOutcome.inserted;
        journal = record j { messages = put m.message_id row j.messages };
      })
  ]

abbrev pub is_at : Text → ℕ → DeliveryRow → Bool
is_at connection_id sequence d = text_eq d.connection_id connection_id && d.sequence == sequence

-- An INSERT under a primary key, with a reference to the message.
unfoldable pub record_outbox_delivery :
    Journal → Text → ℕ → Text → ℕ → Result AttemptStoreError (Committed (Unit {0}))
unfolding to_i64 get text_eq
record_outbox_delivery j connection_id sequence message_id at_ms = do
  sequence ← to_i64 sequence
  delivered ← to_i64 at_ms
  (if any (is_at connection_id sequence) j.deliveries || not (is_some (get j.messages message_id))
      then err storage
      else ok (record {
        outcome = tt;
        journal = record j {
          deliveries = push j.deliveries (record {
            connection_id = connection_id;
            sequence = sequence;
            message_id = message_id;
            delivered_at_ms = delivered;
          });
        };
      }))

-- The rows that a DELETE leaves.
unfoldable pub keep : (DeliveryRow → Bool) → List DeliveryRow → List DeliveryRow
keep p [] = []
keep p (d ∷ ds) = let rest = keep p ds in if p d then d ∷ rest else rest

unfoldable pub is_acknowledged : Text → ℕ → DeliveryRow → Bool
unfolding text_eq
is_acknowledged connection_id through d =
    text_eq d.connection_id connection_id && leb d.sequence through

-- DELETE of a message, with the cascade to its deliveries
unfoldable pub delete_message : Journal → Text → Journal
unfolding remove keep text_eq
delete_message j id = record j {
  messages = remove id j.messages;
  deliveries = keep (λ (d : DeliveryRow). not (text_eq d.message_id id)) j.deliveries;
}

-- The loop over the selected deliveries; `deleted` counts the messages that are still there.
unfoldable pub delete_messages : List DeliveryRow → Journal → ℕ → Committed ℕ
unfolding delete_message get
delete_messages [] j deleted = record { outcome = deleted; journal = j }
delete_messages (d ∷ ds) j deleted =
    delete_messages ds (delete_message j d.message_id)
      (if is_some (get j.messages d.message_id) then deleted + 1 else deleted)

unfoldable pub acknowledge_outbox : Journal → Text → ℕ → Result AttemptStoreError (Committed ℕ)
unfolding to_i64 keep is_acknowledged delete_messages
acknowledge_outbox j connection_id acknowledged_through = do
  through ← to_i64 acknowledged_through
  ok (delete_messages (keep (is_acknowledged connection_id through) j.deliveries) j 0)

unfoldable pub prune_outbox_deliveries : Journal → ℕ → Result AttemptStoreError (Committed ℕ)
unfolding to_i64 keep
prune_outbox_deliveries j older_than_ms = do
  older ← to_i64 older_than_ms
  ok (record {
    outcome = length (keep (λ (d : DeliveryRow). ltb d.delivered_at_ms older) j.deliveries);
    journal = record j {
      deliveries = keep (λ (d : DeliveryRow). not (ltb d.delivered_at_ms older)) j.deliveries;
    };
  })

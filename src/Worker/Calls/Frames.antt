-- ===== src/Worker/Calls/Frames.antt =====
-- What the other operations on the worker's journal leave alone (crates/alloyport-worker/src/adapters/
-- sqlite/attempt_store/).
use alloyport.Prelude.{
  ℕ, ◌≡◌, refl, arith, none, some, is_some, List, [], ◌∷◌, if◌then◌else◌, Option-cases, inl, inr,
  ◌⊎◌, ok, ◌+◌,
}
use alloyport.Prelude.Text.{Text, text_eq_iff}
use alloyport.Prelude.Maps.{get, put}
use alloyport.Execution.{DeviceObservation}
use alloyport.Worker.Journal.{Json, LeaseRow, DeliveryRow, Journal, to_i64}
use alloyport.Worker.Outbox.{
  record_outbox_delivery, acknowledge_outbox, prune_outbox_deliveries, delete_messages,
  delete_message, keep, is_acknowledged,
}
use alloyport.Worker.Lifecycle.{bind_worker}
use alloyport.Worker.Leases.{record_device_preflight, observe_device}
use alloyport.Worker.Calls.{tables}

pub record Same (j j' : Journal) : Type 0 where
  pub attempts : j'.attempts ≡ j.attempts
  pub leases : j'.leases ≡ j.leases
  pub preflights : j'.preflights ≡ j.preflights

pub bind_worker-Same : (j j' : Journal) (w : Text) → tables (bind_worker j w) ≡ ok j' → Same j j'
unfolding bind_worker
bind_worker-Same j j' w h = record {
  attempts = ground arith;
  leases = ground arith;
  preflights = ground arith;
}

pub record_outbox_delivery-Same :
    (j j' : Journal) (c : Text) (s : ℕ) (m : Text) (t : ℕ)
    → tables (record_outbox_delivery j c s m t) ≡ ok j'
    → Same j j'
unfolding record_outbox_delivery
record_outbox_delivery-Same j j' c s m t h = record {
  attempts = ground arith;
  leases = ground arith;
  preflights = ground arith;
}

pub prune_outbox_deliveries-Same :
    (j j' : Journal) (t : ℕ) → tables (prune_outbox_deliveries j t) ≡ ok j' → Same j j'
unfolding prune_outbox_deliveries
prune_outbox_deliveries-Same j j' t h = record {
  attempts = ground arith;
  leases = ground arith;
  preflights = ground arith;
}

delete_messages-Same :
    (ds : List DeliveryRow) (j : Journal) (n : ℕ) → Same j (delete_messages ds j n).journal
unfolding delete_messages delete_message
delete_messages-Same [] j n = record { attempts = refl; leases = refl; preflights = refl }
delete_messages-Same (d ∷ ds) j n =
    let s =
      delete_messages-Same ds (delete_message j d.message_id)
        (if is_some (get j.messages d.message_id) then n + 1 else n) in
    record { attempts = s.attempts; leases = s.leases; preflights = s.preflights }

-- The rows that an acknowledgement selects.
pub acknowledge_outbox-ok :
    (j j' : Journal) (c : Text) (n : ℕ)
    → tables (acknowledge_outbox j c n) ≡ ok j'
    → (j' ≡ (delete_messages (keep (is_acknowledged c n) j.deliveries) j 0).journal)
unfolding acknowledge_outbox to_i64
acknowledge_outbox-ok j j' c n h = ground arith

pub acknowledge_outbox-Same :
    (j j' : Journal) (c : Text) (n : ℕ) → tables (acknowledge_outbox j c n) ≡ ok j' → Same j j'
acknowledge_outbox-Same j j' c n h =
    rw (acknowledge_outbox-ok j j' c n h)
      (delete_messages-Same (keep (is_acknowledged c n) j.deliveries) j 0)

-- An observation is evidence of the device of a lease, or changes nothing.
pub record_device_preflight-put :
    (json : Json) (j j' : Journal) (a : Text) (o : DeviceObservation)
    → tables (record_device_preflight json j a o) ≡ ok j'
    → (j' ≡ j)
      ⊎ ((l : LeaseRow) × (get j.leases a ≡ some l)
          × (l.device_id ≡ o.device_id)
          × (get j.preflights a ≡ none)
          × (j' ≡ record j { preflights = put a (json.observation o) j.preflights }))
unfolding record_device_preflight observe_device
record_device_preflight-put json j j' a o h = elim (Option-cases (get j.preflights a)) [
  | inr (x, p) ↦ inl (ground arith)
  | inl p ↦ elim (Option-cases (get j.leases a)) [
    | inl q ↦ absurd (ground arith)
    | inr (l, q) ↦ inr (l, q, ground (arith, text_eq_iff l.device_id o.device_id), p, ground arith)
  ]
]

-- ===== src/Worker/Calls/Delivered.antt =====
-- When a message leaves the worker's outbox (crates/alloyport-worker/src/adapters/sqlite/attempt_store/
-- outbox.rs).
use alloyport.Prelude.{
  leb, ℕ, ◌+◌, ◌≡◌, refl, ◌∙◌, arith, Bool, false, ◌&&◌, none, some, is_some, List, [], ◌∷◌, any,
  if◌then◌else◌, inl, inr, ok,
}
use alloyport.Prelude.Text.{Text, text_eq, text_eq_iff}
use alloyport.Prelude.Maps.{Entry, get, get-put, get-remove}
use alloyport.Worker.Journal.{Json, MessageRow, DeliveryRow, Journal}
use alloyport.Worker.Outbox.{
  delete_message, delete_messages, keep, is_acknowledged, record_outbox_delivery,
  prune_outbox_deliveries,
}
use alloyport.Worker.Lifecycle.{bind_worker}
use alloyport.Worker.Calls.{
  Call, tables, call, binds, admits, runs, finishes, enqueues, delivers, acknowledges, prunes,
  acquires, releases, observes,
}
use alloyport.Worker.Calls.Announced.{
  Adds, enqueue-Enqueues, admit-Announces, mark_running-Announces, mark_finished-Announces,
}
use alloyport.Worker.Calls.Frames.{acknowledge_outbox-ok, record_device_preflight-put}
use alloyport.Worker.Calls.Exclusive.{
  acquire_device_lease-take_device, take_device-grant, release_device_lease-put,
}

-- The call acknowledges a delivery of the message.
unfoldable pub is_settled : Call → Journal → Text → Bool
unfolding text_eq
is_settled (acknowledges connection_id through) j id =
    any
      (λ (d : DeliveryRow).
        (text_eq d.connection_id connection_id && leb d.sequence through)
        && text_eq d.message_id id)
      j.deliveries
is_settled _ j id = false

any-keep :
    (p q : DeliveryRow → Bool) (ds : List DeliveryRow)
    → any q (keep p ds) ≡ any (λ d. p d && q d) ds
unfolding keep
any-keep p q [] = refl
any-keep p q (d ∷ ds) = ground (arith, any-keep p q ds)

get-delete_messages :
    (ds : List DeliveryRow) (j : Journal) (n : ℕ) (id : Text)
    → get (delete_messages ds j n).journal.messages id
      ≡ (if any (λ d. text_eq d.message_id id) ds then none else get j.messages id)
unfolding delete_messages delete_message
get-delete_messages [] j n id = refl
get-delete_messages (d ∷ ds) j n id = ground (
  arith,
  get-delete_messages ds (delete_message j d.message_id)
      (if is_some (get j.messages d.message_id) then n + 1 else n) id,
  get-remove d.message_id id j.messages,
)

get-Adds :
    (m m' : List (Entry MessageRow)) (id : Text) (row : MessageRow)
    → Adds m m'
    → get m id ≡ some row
    → get m' id ≡ some row
get-Adds m m' id row (inl e) g = rw e g
get-Adds m m' id row (inr (k, r, e, u)) g =
    rw (e, get-put k id r m) (ground (arith, text_eq_iff k id))

bind_worker-messages :
    (j j' : Journal) (w : Text) → tables (bind_worker j w) ≡ ok j' → j'.messages ≡ j.messages
unfolding bind_worker
bind_worker-messages j j' w h = ground arith

record_outbox_delivery-messages :
    (j j' : Journal) (c : Text) (s : ℕ) (m : Text) (t : ℕ)
    → tables (record_outbox_delivery j c s m t) ≡ ok j'
    → j'.messages ≡ j.messages
unfolding record_outbox_delivery
record_outbox_delivery-messages j j' c s m t h = ground arith

prune_outbox_deliveries-messages :
    (j j' : Journal) (t : ℕ)
    → tables (prune_outbox_deliveries j t) ≡ ok j'
    → j'.messages ≡ j.messages
unfolding prune_outbox_deliveries
prune_outbox_deliveries-messages j j' t h = ground arith

-- A pending message leaves the outbox exactly when a call acknowledges one of its deliveries; any other
-- call keeps it as it is.
pub call-is_settled :
    (json : Json) (j j' : Journal) (c : Call) (message_id : Text) (row : MessageRow)
    → get j.messages message_id ≡ some row
    → call json j c ≡ ok j'
    → get j'.messages message_id ≡ (if is_settled c j message_id then none else some row)
unfolding call is_settled is_acknowledged
call-is_settled json j j' (binds w) id row g h = rw (bind_worker-messages j j' w h) g
call-is_settled json j j' (admits a t) id row g h =
    get-Adds j.messages j'.messages id row (admit-Announces json j j' a t h).messages g
call-is_settled json j j' (runs a t) id row g h =
    get-Adds j.messages j'.messages id row (mark_running-Announces json j j' a t h).messages g
call-is_settled json j j' (finishes a f t) id row g h =
    get-Adds j.messages j'.messages id row (mark_finished-Announces json j j' a f t h).messages g
call-is_settled json j j' (enqueues m t) id row g h =
    get-Adds j.messages j'.messages id row (enqueue-Enqueues json j j' m t h).messages g
call-is_settled json j j' (delivers c s m t) id row g h =
    rw (record_outbox_delivery-messages j j' c s m t h) g
call-is_settled json j j' (acknowledges c n) id row g h =
    let ds = keep (is_acknowledged c n) j.deliveries in
    rw (acknowledge_outbox-ok j j' c n h) (
      get-delete_messages ds j 0 id
      ∙ rw (g, any-keep (is_acknowledged c n) (λ d. text_eq d.message_id id) j.deliveries) refl)
call-is_settled json j j' (prunes t) id row g h = rw (prune_outbox_deliveries-messages j j' t h) g
call-is_settled json j j' (acquires a d t) id row g h =
    elim (acquire_device_lease-take_device j j' a d t h) [
      | inl e ↦ rw e g
      | inr k ↦ let (n, e, o) = take_device-grant j j' a d t k in rw e g
    ]
call-is_settled json j j' (releases a t) id row g h = elim (release_device_lease-put j j' a t h) [
  | inl e ↦ rw e g
  | inr (l, n, q, e) ↦ rw e g
]
call-is_settled json j j' (observes a o) id row g h =
    elim (record_device_preflight-put json j j' a o h) [
      | inl e ↦ rw e g
      | inr (l, q, s, p, e) ↦ rw e g
    ]

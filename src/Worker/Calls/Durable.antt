-- ===== src/Worker/Calls/Durable.antt =====
-- What the worker's journal never rewrites (crates/alloyport-worker/src/adapters/sqlite/attempt_store/).
use alloyport.Prelude.{◌≡◌, refl, arith, none, some, List, inl, inr, ◌⊎◌, ok}
use alloyport.Prelude.Text.{Text, text_eq_iff}
use alloyport.Prelude.Maps.{Entry, get, put, get-put}
use alloyport.Worker.Journal.{Json, AttemptRow, Journal}
use alloyport.Worker.Calls.{
  Call, call, run, binds, admits, runs, finishes, enqueues, delivers, acknowledges, prunes,
  acquires, releases, observes,
}
use alloyport.Worker.Calls.Runs.{run-keeps}
use alloyport.Worker.Calls.Announced.{
  Writes, Announces, enqueue-Enqueues, admit-Announces, mark_running-Announces,
  mark_finished-Announces,
}
use alloyport.Worker.Calls.Frames.{
  Same, bind_worker-Same, record_outbox_delivery-Same, acknowledge_outbox-Same,
  prune_outbox_deliveries-Same, record_device_preflight-put,
}
use alloyport.Worker.Calls.Exclusive.{
  acquire_device_lease-take_device, take_device-grant, release_device_lease-put,
}

-- A preflight is recorded where there is none.
abbrev Records : List (Entry Text) → List (Entry Text) → Type 0
Records m m' = (m' ≡ m) ⊎ ((id : Text) × (t : Text) × (m' ≡ put id t m) × (get m id ≡ none))

record Rewrites (j j' : Journal) : Type 0 where
  attempts : Writes j.attempts j'.attempts
  preflights : Records j.preflights j'.preflights

Announces-Rewrites : (j j' : Journal) → Announces j j' → Rewrites j j'
Announces-Rewrites j j' a = record { attempts = a.attempts; preflights = inl a.preflights }

Same-Rewrites : (j j' : Journal) → Same j j' → Rewrites j j'
Same-Rewrites j j' s = record { attempts = inl s.attempts; preflights = inl s.preflights }

-- No call touches the attempts or the preflights in another way.
call-Rewrites : (json : Json) (j j' : Journal) (c : Call) → call json j c ≡ ok j' → Rewrites j j'
unfolding call
call-Rewrites json j j' (binds w) h = Same-Rewrites j j' (bind_worker-Same j j' w h)
call-Rewrites json j j' (admits a t) h = Announces-Rewrites j j' (admit-Announces json j j' a t h)
call-Rewrites json j j' (runs a t) h =
    Announces-Rewrites j j' (mark_running-Announces json j j' a t h)
call-Rewrites json j j' (finishes a f t) h =
    Announces-Rewrites j j' (mark_finished-Announces json j j' a f t h)
call-Rewrites json j j' (enqueues m t) h =
    let q = enqueue-Enqueues json j j' m t h in
    record { attempts = inl q.attempts; preflights = inl q.preflights }
call-Rewrites json j j' (delivers c s m t) h =
    Same-Rewrites j j' (record_outbox_delivery-Same j j' c s m t h)
call-Rewrites json j j' (acknowledges c n) h =
    Same-Rewrites j j' (acknowledge_outbox-Same j j' c n h)
call-Rewrites json j j' (prunes t) h = Same-Rewrites j j' (prune_outbox_deliveries-Same j j' t h)
call-Rewrites json j j' (acquires a d t) h = elim (acquire_device_lease-take_device j j' a d t h) [
  | inl e ↦ rw e (record { attempts = inl refl; preflights = inl refl })
  | inr k ↦
      let (n, e, o) = take_device-grant j j' a d t k in
      rw e (record { attempts = inl refl; preflights = inl refl })
]
call-Rewrites json j j' (releases a t) h = elim (release_device_lease-put j j' a t h) [
  | inl e ↦ rw e (record { attempts = inl refl; preflights = inl refl })
  | inr (l, n, q, e) ↦ rw e (record { attempts = inl refl; preflights = inl refl })
]
call-Rewrites json j j' (observes a o) h = elim (record_device_preflight-put json j j' a o h) [
  | inl e ↦ rw e (record { attempts = inl refl; preflights = inl refl })
  | inr (l, q, s, p, e) ↦
      rw e (record { attempts = inl refl; preflights = inr (a, json.observation o, refl, p) })
]

Writes-finished :
    (m m' : List (Entry AttemptRow)) (id : Text) (row : AttemptRow)
    → Writes m m'
    → row.phase ≡ 3
    → get m id ≡ some row
    → get m' id ≡ some row
Writes-finished m m' id row (inl e) p g = rw e g
Writes-finished m m' id row (inr (k, r, e, u)) p g =
    rw (e, get-put k id r m) (ground (arith, text_eq_iff k id))

Records-some :
    (m m' : List (Entry Text)) (id t : Text) → Records m m' → get m id ≡ some t → get m' id ≡ some t
Records-some m m' id t (inl e) g = rw e g
Records-some m m' id t (inr (k, r, e, u)) g =
    rw (e, get-put k id r m) (ground (arith, text_eq_iff k id))

-- Once an attempt is finished, no calls change its row: its result, its assignment and its phase stay.
pub run-finished :
    (json : Json) (j : Journal) (calls : List Call) (attempt_id : Text) (row : AttemptRow)
    → get j.attempts attempt_id ≡ some row
    → row.phase ≡ 3
    → get (run json j calls).attempts attempt_id ≡ some row
run-finished json j calls id row g p =
    run-keeps json (λ i. get i.attempts id ≡ some row)
      (λ i i' c h k.
        Writes-finished i.attempts i'.attempts id row (call-Rewrites json i i' c h).attempts p k)
      j calls g

-- Once the preflight evidence of an attempt is recorded, no calls change it.
pub run-preflights :
    (json : Json) (j : Journal) (calls : List Call) (attempt_id evidence : Text)
    → get j.preflights attempt_id ≡ some evidence
    → get (run json j calls).preflights attempt_id ≡ some evidence
run-preflights json j calls id t g =
    run-keeps json (λ i. get i.preflights id ≡ some t)
      (λ i i' c h k.
        Records-some i.preflights i'.preflights id t (call-Rewrites json i i' c h).preflights k)
      j calls g

-- ===== src/Worker/Calls/Exclusive.antt =====
-- The leases of the worker's journal (crates/alloyport-worker/src/adapters/sqlite/attempt_store/
-- device_lease.rs): who holds a device.
use alloyport.Prelude.{
  ℕ, ◌+◌, ◌≤◌, ◌≡◌, refl, arith, none, some, List, [], ◌∷◌, if◌then◌else◌, Bool-cases, Option-cases,
  Result-cases, ◌⊎◌, inl, inr, ok,
}
use alloyport.Prelude.Text.{Text, text_eq_iff}
use alloyport.Prelude.Maps.{Entry, get, put}
use alloyport.Worker.Journal.{Json, LeaseRow, Journal, new_journal, to_i64}
use alloyport.Worker.Leases.{
  holds, is_active, owner, take_device, grant, acquire_device_lease, release_device_lease,
}
use alloyport.Worker.Calls.{
  Call, tables, call, run, binds, admits, runs, finishes, enqueues, delivers, acknowledges, prunes,
  acquires, releases, observes,
}
use alloyport.Worker.Calls.Runs.{run-keeps}
use alloyport.Worker.Calls.Announced.{
  enqueue-Enqueues, admit-Announces, mark_running-Announces, mark_finished-Announces,
}
use alloyport.Worker.Calls.Frames.{
  bind_worker-Same, record_outbox_delivery-Same, acknowledge_outbox-Same,
  prune_outbox_deliveries-Same, record_device_preflight-put,
}

-- How many attempts hold a device.
abbrev pub holders : Text → List (Entry LeaseRow) → ℕ
holders d [] = 0
holders d (e ∷ m) = (if holds d e.value then 1 else 0) + holders d m

-- A lease put in place adds at most itself.
holders-put :
    (d k : Text) (l : LeaseRow) (m : List (Entry LeaseRow))
    → holders d (put k l m) ≤ (if holds d l then 1 else 0) + holders d m
unfolding put
holders-put d k l [] = ground arith
holders-put d k l (e ∷ m) = ground (arith, holders-put d k l m)

owner-none : (d : Text) (m : List (Entry LeaseRow)) → owner m d ≡ none → holders d m ≡ 0
unfolding owner
owner-none d [] h = refl
owner-none d (e ∷ m) h = ground (arith, owner-none d m)

abbrev IsExclusive : List (Entry LeaseRow) → Type 0
IsExclusive m = (d : Text) → holders d m ≤ 1

pub take_device-grant :
    (j j' : Journal) (a d : Text) (at_ms : ℕ)
    → tables (take_device j a d at_ms) ≡ ok j'
    → (n : ℕ) × (j' ≡ grant j a d n) × (owner j.leases d ≡ none)
unfolding take_device
take_device-grant j j' a d at_ms h = elim (Option-cases (owner j.leases d)) [
  | inl o ↦ elim (Result-cases (to_i64 at_ms)) [
    | inl (n, t) ↦ (n, ground arith, o)
    | inr (e, t) ↦ absurd (ground arith)
  ]
  | inr (b, o) ↦ absurd (ground arith)
]

pub acquire_device_lease-take_device :
    (j j' : Journal) (a d : Text) (at_ms : ℕ)
    → tables (acquire_device_lease j a d at_ms) ≡ ok j'
    → (j' ≡ j) ⊎ (tables (take_device j a d at_ms) ≡ ok j')
unfolding acquire_device_lease
acquire_device_lease-take_device j j' a d at_ms h = ground arith

-- A release ends the lease of one attempt, if anything.
pub release_device_lease-put :
    (j j' : Journal) (a : Text) (at_ms : ℕ)
    → tables (release_device_lease j a at_ms) ≡ ok j'
    → (j' ≡ j)
      ⊎ ((l : LeaseRow) × (n : ℕ) × (get j.leases a ≡ some l)
          × (j' ≡ record j { leases = put a (record l { released_at_ms = some n }) j.leases }))
unfolding release_device_lease
release_device_lease-put j j' a at_ms h = elim (Option-cases (get j.leases a)) [
  | inl o ↦ absurd (ground arith)
  | inr (l, o) ↦ elim (Result-cases (to_i64 at_ms)) [
    | inl (n, t) ↦ elim (Bool-cases (is_active l)) [
      | inl b ↦ inr (l, n, o, ground arith)
      | inr b ↦ inl (ground arith)
    ]
    | inr (e, t) ↦ inl (ground arith)
  ]
]

grant-IsExclusive :
    (j : Journal) (a d : Text) (n : ℕ)
    → owner j.leases d ≡ none
    → IsExclusive j.leases
    → IsExclusive (grant j a d n).leases
unfolding holds is_active
grant-IsExclusive j a d n o x e =
    let l : LeaseRow = record { device_id = d; acquired_at_ms = n; released_at_ms = none } in
    ground (arith, holders-put e a l j.leases, x e, owner-none d j.leases o, text_eq_iff d e)

release-IsExclusive :
    (a : Text) (l : LeaseRow) (n : ℕ) (m : List (Entry LeaseRow))
    → IsExclusive m
    → IsExclusive (put a (record l { released_at_ms = some n }) m)
unfolding holds is_active
release-IsExclusive a l n m x e =
    ground (arith, holders-put e a (record l { released_at_ms = some n }) m, x e)

module _ (json : Json) where
  call-IsExclusive :
      (j j' : Journal) (c : Call)
      → call json j c ≡ ok j'
      → IsExclusive j.leases
      → IsExclusive j'.leases
  unfolding call
  call-IsExclusive j j' (binds w) h x = rw (bind_worker-Same j j' w h).leases x
  call-IsExclusive j j' (admits a t) h x = rw (admit-Announces json j j' a t h).leases x
  call-IsExclusive j j' (runs a t) h x = rw (mark_running-Announces json j j' a t h).leases x
  call-IsExclusive j j' (finishes a f t) h x =
      rw (mark_finished-Announces json j j' a f t h).leases x
  call-IsExclusive j j' (enqueues m t) h x = rw (enqueue-Enqueues json j j' m t h).leases x
  call-IsExclusive j j' (delivers c s m t) h x =
      rw (record_outbox_delivery-Same j j' c s m t h).leases x
  call-IsExclusive j j' (acknowledges c n) h x = rw (acknowledge_outbox-Same j j' c n h).leases x
  call-IsExclusive j j' (prunes t) h x = rw (prune_outbox_deliveries-Same j j' t h).leases x
  call-IsExclusive j j' (acquires a d t) h x =
      elim (acquire_device_lease-take_device j j' a d t h) [
        | inl e ↦ rw e x
        | inr k ↦
            let (n, e, o) = take_device-grant j j' a d t k in rw e (grant-IsExclusive j a d n o x)
      ]
  call-IsExclusive j j' (releases a t) h x = elim (release_device_lease-put j j' a t h) [
    | inl e ↦ rw e x
    | inr (l, n, q, e) ↦ rw e (release-IsExclusive a l n j.leases x)
  ]
  call-IsExclusive j j' (observes a o) h x = elim (record_device_preflight-put json j j' a o h) [
    | inl e ↦ rw e x
    | inr (l, q, s, p, e) ↦ rw e x
  ]

  -- After any calls on a new journal, at most one attempt holds a device.
  pub run-holders :
      (calls : List Call) (device_id : Text)
      → holders device_id (run json new_journal calls).leases ≤ 1
  run-holders calls d =
      run-keeps json (λ j. IsExclusive j.leases) call-IsExclusive new_journal calls
        (λ e. omega arith) d

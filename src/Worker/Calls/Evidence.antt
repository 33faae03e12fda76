-- ===== src/Worker/Calls/Evidence.antt =====
-- The evidence of a preflight beside the lease of its attempt (crates/alloyport-worker/src/adapters/sqlite/
-- attempt_store/device_lease.rs).
use alloyport.Prelude.{
  ℕ, ◌≡◌, refl, ◌∙◌, ap, sym, arith, Option, none, some, List, Bool-cases, Option-cases, inl, inr,
  ok,
}
use alloyport.Prelude.Text.{Text, text_eq, text_eq_iff}
use alloyport.Prelude.Maps.{Entry, get, put, get-put}
use alloyport.Execution.{DeviceObservation}
use alloyport.Worker.Journal.{Json, LeaseRow, Journal, new_journal}
use alloyport.Worker.Leases.{acquire_device_lease, release_device_lease}
use alloyport.Worker.Calls.{
  Call, tables, call, run, binds, admits, runs, finishes, enqueues, delivers, acknowledges, prunes,
  acquires, releases, observes,
}
use alloyport.Worker.Calls.Runs.{run-keeps}
use alloyport.Worker.Calls.Announced.{
  Announces, enqueue-Enqueues, admit-Announces, mark_running-Announces, mark_finished-Announces,
}
use alloyport.Worker.Calls.Frames.{
  Same, bind_worker-Same, record_outbox_delivery-Same, acknowledge_outbox-Same,
  prune_outbox_deliveries-Same, record_device_preflight-put,
}
use alloyport.Worker.Calls.Exclusive.{
  acquire_device_lease-take_device, take_device-grant, release_device_lease-put,
}

abbrev device_of : List (Entry LeaseRow) → Text → Option Text
device_of m a = elim (get m a) [ none ↦ none | some l ↦ some l.device_id ]

-- The device of a lease, ended or not, stays that of its attempt.
acquire_device_lease-device_of :
    (j j' : Journal) (a d k e : Text) (at_ms : ℕ)
    → tables (acquire_device_lease j a d at_ms) ≡ ok j'
    → device_of j.leases k ≡ some e
    → device_of j'.leases k ≡ some e
unfolding acquire_device_lease
acquire_device_lease-device_of j j' a d k e at_ms h g =
    elim (acquire_device_lease-take_device j j' a d at_ms h) [
      | inl s ↦ rw s g
      | inr t ↦
          let (n, s, o) = take_device-grant j j' a d at_ms t in
          let l : LeaseRow = record { device_id = d; acquired_at_ms = n; released_at_ms = none } in
          elim (Option-cases (get j.leases a)) [
            | inl q ↦ rw s (ground (arith, q, get-put a k l j.leases, text_eq_iff a k))
            | inr (l', q) ↦
                let same : l'.device_id ≡ d = ground (arith, q, text_eq_iff l'.device_id d) in
                rw s (ground (arith, q, same, get-put a k l j.leases, text_eq_iff a k))
          ]
    ]

release_device_lease-device_of :
    (j j' : Journal) (a k e : Text) (at_ms : ℕ)
    → tables (release_device_lease j a at_ms) ≡ ok j'
    → device_of j.leases k ≡ some e
    → device_of j'.leases k ≡ some e
release_device_lease-device_of j j' a k e at_ms h g =
    elim (release_device_lease-put j j' a at_ms h) [
      | inl s ↦ rw s g
      | inr (l, n, q, s) ↦
          let l' : LeaseRow = record l { released_at_ms = some n } in
          rw s (ground (arith, q, get-put a k l' j.leases, text_eq_iff a k))
    ]

-- The observation behind a piece of evidence, of the device that the attempt has leased.
pub record IsObserved (json : Json) (j : Journal) (a evidence : Text) : Type 0 where
  pub observation : DeviceObservation
  pub encoded : evidence ≡ json.observation observation
  pub leased : device_of j.leases a ≡ some observation.device_id

abbrev IsEvidenced : Json → Journal → Type 0
IsEvidenced json j =
    (a evidence : Text) → get j.preflights a ≡ some evidence → IsObserved json j a evidence

abbrev KeepsDevices : Journal → Journal → Type 0
KeepsDevices j j' = (a e : Text) → device_of j.leases a ≡ some e → device_of j'.leases a ≡ some e

still :
    (json : Json) (j j' : Journal)
    → j'.preflights ≡ j.preflights
    → KeepsDevices j j'
    → IsEvidenced json j
    → IsEvidenced json j'
still json j j' p k x a t g =
    let o = x a t (ap (λ (m : List (Entry Text)). get m a) (sym p) ∙ g) in
    record {
      observation = o.observation;
      encoded = o.encoded;
      leased = k a o.observation.device_id o.leased;
    }

same_leases : (j j' : Journal) → j'.leases ≡ j.leases → KeepsDevices j j'
same_leases j j' e a d g = rw e g

module _ (json : Json) where
  observed-IsEvidenced :
      (j : Journal) (a : Text) (o : DeviceObservation) (l : LeaseRow)
      → get j.leases a ≡ some l
      → l.device_id ≡ o.device_id
      → IsEvidenced json j
      → IsEvidenced json (record j { preflights = put a (json.observation o) j.preflights })
  observed-IsEvidenced j a o l q s x k t g = elim (Bool-cases (text_eq a k)) [
    | inl b ↦ record {
      observation = o;
      encoded = ground (arith, get-put a k (json.observation o) j.preflights);
      leased = ground (arith, text_eq_iff a k, q, s);
    }
    | inr b ↦
        let y = x k t (ground (arith, get-put a k (json.observation o) j.preflights)) in
        record { observation = y.observation; encoded = y.encoded; leased = y.leased }
  ]

  Announces-IsEvidenced :
      (j j' : Journal) → Announces j j' → IsEvidenced json j → IsEvidenced json j'
  Announces-IsEvidenced j j' a = still json j j' a.preflights (same_leases j j' a.leases)

  Same-IsEvidenced : (j j' : Journal) → Same j j' → IsEvidenced json j → IsEvidenced json j'
  Same-IsEvidenced j j' s = still json j j' s.preflights (same_leases j j' s.leases)

  acquire_device_lease-preflights :
      (j j' : Journal) (a d : Text) (t : ℕ)
      → tables (acquire_device_lease j a d t) ≡ ok j'
      → j'.preflights ≡ j.preflights
  acquire_device_lease-preflights j j' a d t h =
      elim (acquire_device_lease-take_device j j' a d t h) [
        | inl e ↦ rw e refl
        | inr k ↦ let (n, e, o) = take_device-grant j j' a d t k in rw e refl
      ]

  release_device_lease-preflights :
      (j j' : Journal) (a : Text) (t : ℕ)
      → tables (release_device_lease j a t) ≡ ok j'
      → j'.preflights ≡ j.preflights
  release_device_lease-preflights j j' a t h = elim (release_device_lease-put j j' a t h) [
    | inl e ↦ rw e refl
    | inr (l, n, q, e) ↦ rw e refl
  ]

  call-IsEvidenced :
      (j j' : Journal) (c : Call) → call json j c ≡ ok j' → IsEvidenced json j → IsEvidenced json j'
  unfolding call
  call-IsEvidenced j j' (binds w) h = Same-IsEvidenced j j' (bind_worker-Same j j' w h)
  call-IsEvidenced j j' (admits a t) h =
      Announces-IsEvidenced j j' (admit-Announces json j j' a t h)
  call-IsEvidenced j j' (runs a t) h =
      Announces-IsEvidenced j j' (mark_running-Announces json j j' a t h)
  call-IsEvidenced j j' (finishes a f t) h =
      Announces-IsEvidenced j j' (mark_finished-Announces json j j' a f t h)
  call-IsEvidenced j j' (enqueues m t) h =
      let q = enqueue-Enqueues json j j' m t h in
      still json j j' q.preflights (same_leases j j' q.leases)
  call-IsEvidenced j j' (delivers c s m t) h =
      Same-IsEvidenced j j' (record_outbox_delivery-Same j j' c s m t h)
  call-IsEvidenced j j' (acknowledges c n) h =
      Same-IsEvidenced j j' (acknowledge_outbox-Same j j' c n h)
  call-IsEvidenced j j' (prunes t) h = Same-IsEvidenced j j' (prune_outbox_deliveries-Same j j' t h)
  call-IsEvidenced j j' (acquires a d t) h =
      still json j j' (acquire_device_lease-preflights j j' a d t h)
        (λ k e. acquire_device_lease-device_of j j' a d k e t h)
  call-IsEvidenced j j' (releases a t) h =
      still json j j' (release_device_lease-preflights j j' a t h)
        (λ k e. release_device_lease-device_of j j' a k e t h)
  call-IsEvidenced j j' (observes a o) h = λ x. elim (record_device_preflight-put json j j' a o h) [
    | inl e ↦ rw e x
    | inr (l, q, s, p, e) ↦ rw e (observed-IsEvidenced j a o l q s x)
  ]

  no_evidence : IsEvidenced json new_journal
  unfolding get
  no_evidence a t g = absurd (ground arith)

  -- After any calls on a new journal, recorded preflight evidence is the encoding of an observation of
  -- the very device that the journal has for the attempt's lease.
  pub run-IsObserved :
      (calls : List Call) (attempt_id evidence : Text)
      → get (run json new_journal calls).preflights attempt_id ≡ some evidence
      → IsObserved json (run json new_journal calls) attempt_id evidence
  run-IsObserved calls a t g =
      run-keeps json (IsEvidenced json) call-IsEvidenced new_journal calls no_evidence a t g

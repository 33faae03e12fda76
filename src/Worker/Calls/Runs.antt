-- ===== src/Worker/Calls/Runs.antt =====
-- What every call on the worker's journal keeps, every sequence of calls keeps.
use alloyport.Prelude.{
  ◌≡◌, refl, sym, subst, ap, List, [], ◌∷◌, Result-cases, Result, ok, err, inl, inr,
}
use alloyport.Worker.Journal.{Json, Journal, AttemptStoreError}
use alloyport.Worker.Calls.{Call, call, run}

-- The journal after a call, whether it is refused or not.
abbrev next : Journal → Result AttemptStoreError Journal → Journal
next j (ok j') = j'
next j (err e) = j

pub run-keeps {ℓ} :
    (json : Json) (P : Journal → Type ℓ)
    → ((j j' : Journal) (c : Call) → call json j c ≡ ok j' → P j → P j')
    → (j : Journal) (calls : List Call) → P j
    → P (run json j calls)
unfolding run
run-keeps json P k j [] p = p
run-keeps json P k j (c ∷ cs) p =
    run-keeps json P k (next j (call json j c)) cs (elim (Result-cases (call json j c)) [
      | inl (j', e) ↦
          subst (λ (r : Result AttemptStoreError Journal). P (next j r)) (sym e) (k j j' c e p)
      | inr (x, e) ↦ subst (λ (r : Result AttemptStoreError Journal). P (next j r)) (sym e) p
    ])

pub run-ok :
    (json : Json) (j j' : Journal) (c : Call) (calls : List Call)
    → call json j c ≡ ok j'
    → run json j (c ∷ calls) ≡ run json j' calls
unfolding run
run-ok json j j' c calls e =
    ap (λ (r : Result AttemptStoreError Journal). run json (next j r) calls) e

pub run-nil : (json : Json) (j : Journal) → run json j [] ≡ j
unfolding run
run-nil json j = refl

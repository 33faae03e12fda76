-- ===== src/Agent/Search/Frontier.antt =====
-- Sequences of calls on a search run (crates/alloyport-core/src/agent.rs): its candidates and its incumbent.
use alloyport.Prelude.{
  ◌≡◌, refl, Bool, true, false, not, ◌&&◌, Option, none, some, List, [], ◌∷◌, arith, push,
  Bool-cases, Result-cases, inl, inr, Result, ok, err,
}
use alloyport.Prelude.Text.{Text, text_eq, text_eq_iff}
use alloyport.AgentError.{AgentRecordError}
use alloyport.Agent.Search.{
  SearchRunRecord, SearchRunSpec, SearchStatus, new, transition, contains, record_candidate,
  begin_refining, is_drafting,
}

-- A call of the three operations that change a run.
pub data Call : Type 0 where
  moves : SearchStatus → Call
  records refines : Text → Call

unfoldable pub call : SearchRunRecord → Call → Result AgentRecordError SearchRunRecord
unfolding transition record_candidate begin_refining
call r (moves next) = transition r next
call r (records id) = record_candidate r id
call r (refines id) = begin_refining r id

-- A refused call leaves the run as it was.
unfoldable pub run : SearchRunRecord → List Call → SearchRunRecord
unfolding call
run r [] = r
run r (c ∷ cs) = run (elim (call r c) [ ok r' ↦ r' | err _ ↦ r ]) cs

abbrev pub are_distinct : List Text → Bool
are_distinct [] = true
are_distinct (x ∷ xs) = not (contains xs x) && are_distinct xs

abbrev pub incumbent_known : SearchRunRecord → Bool
incumbent_known r = elim r.incumbent_candidate_id [
  | none ↦ is_drafting r.phase
  | some id ↦ not (is_drafting r.phase) && contains r.candidate_ids id
]

pub record IsFrontier (r : SearchRunRecord) : Type 0 where
  pub distinct : are_distinct r.candidate_ids ≡ true
  pub known : incumbent_known r ≡ true

contains-push :
    (xs : List Text) (a id : Text) → contains xs id ≡ true → contains (push xs a) id ≡ true
unfolding contains
contains-push [] a id h = cc
contains-push (x ∷ xs) a id h = ground (arith, contains-push xs a id)

not-contains-push :
    (xs : List Text) (a id : Text)
    → contains xs id ≡ false
    → text_eq id a ≡ false
    → contains (push xs a) id ≡ false
unfolding contains
not-contains-push [] a id h e = ground arith
not-contains-push (x ∷ xs) a id h e = ground (arith, not-contains-push xs a id)

are_distinct-push :
    (xs : List Text) (a : Text)
    → are_distinct xs ≡ true
    → contains xs a ≡ false
    → are_distinct (push xs a) ≡ true
unfolding contains
are_distinct-push [] a d h = refl
are_distinct-push (x ∷ xs) a d h =
    ground
      (arith, are_distinct-push xs a, not-contains-push xs a x, text_eq_iff x a, text_eq_iff a x)

push-IsFrontier :
    (r : SearchRunRecord) (id : Text)
    → contains r.candidate_ids id ≡ false
    → IsFrontier r
    → IsFrontier (record r { candidate_ids = push r.candidate_ids id })
push-IsFrontier r id fresh f = record {
  distinct = are_distinct-push r.candidate_ids id f.distinct fresh;
  known = still r.incumbent_candidate_id f.known;
}
  where
    still :
        (o : Option Text)
        → incumbent_known (record r { incumbent_candidate_id = o }) ≡ true
        → incumbent_known
            (record r { incumbent_candidate_id = o; candidate_ids = push r.candidate_ids id })
          ≡ true
    still none h = h
    still (some i) h = ground (arith, contains-push r.candidate_ids id i)

call-IsFrontier :
    (r r' : SearchRunRecord) (c : Call) → IsFrontier r → call r c ≡ ok r' → IsFrontier r'
unfolding call
call-IsFrontier r r' (moves next) f e = ground arith
call-IsFrontier r r' (records id) f e = elim (Bool-cases (contains r.candidate_ids id)) [
  | inl old ↦ ground arith
  | inr fresh ↦
      let same : record r { candidate_ids = push r.candidate_ids id } ≡ r' = ground arith in
      rw (← same) (push-IsFrontier r id fresh f)
]
call-IsFrontier r r' (refines id) f e = ground arith

run-IsFrontier : (r : SearchRunRecord) (cs : List Call) → IsFrontier r → IsFrontier (run r cs)
unfolding run
run-IsFrontier r [] f = f
run-IsFrontier r (c ∷ cs) f = elim (Result-cases (call r c)) [
  | inl (r', e) ↦ rw e (run-IsFrontier r' cs (call-IsFrontier r r' c f e))
  | inr (_, e) ↦ rw e (run-IsFrontier r cs f)
]

-- After any calls of `transition`, `record_candidate` and `begin_refining`, refused ones included, on
-- a new search run, its candidates are pairwise different, and it names an incumbent exactly if it
-- refines, one that it has recorded.
pub run-new-IsFrontier : (s : SearchRunSpec) (cs : List Call) → IsFrontier (run (new s) cs)
unfolding new
run-new-IsFrontier s cs = run-IsFrontier (new s) cs (ground arith)

-- ===== src/Model/Attempt/Evidence.antt =====
-- Sequences of calls on the record of an attempt (crates/alloyport-core/src/model_attempt.rs), and the
-- evidence that it holds in each status.
use alloyport.Prelude.{
  ◌&&◌, not, ◌≡◌, Bool, true, false, Option, List, [], ◌∷◌, arith, is_some, Result, ok, err,
  Result-cases, inl, inr,
}
use alloyport.Prelude.Text.{Text}
use alloyport.Digest.{Sha256Digest}
use alloyport.Model.Attempt.{
  ModelAttemptRecord, ModelAttemptSpec, ModelAttemptStatus, ModelAttemptError, ModelUsage, new,
  mark_dispatching, record_response, mark_decoded, mark_decode_failed, mark_response_failed,
  finish_without_response,
}

-- A call of the operations that change an attempt's record.
pub data Call : Type 0 where
  dispatches : Call
  responds : Sha256Digest → Option Text → Option ModelUsage → Call
  decodes : Sha256Digest → Call
  fails_to_decode fails_after_response : Option Sha256Digest → Call
  ends : ModelAttemptStatus → Option Sha256Digest → Call

unfoldable pub call : ModelAttemptRecord → Call → Result ModelAttemptError ModelAttemptRecord
unfolding mark_dispatching record_response mark_decoded mark_decode_failed mark_response_failed
    finish_without_response
call r Call.dispatches = mark_dispatching r
call r (Call.responds response model usage) = record_response r response model usage
call r (Call.decodes continuation) = mark_decoded r continuation
call r (Call.fails_to_decode diagnostic) = mark_decode_failed r diagnostic
call r (Call.fails_after_response diagnostic) = mark_response_failed r diagnostic
call r (Call.ends terminal diagnostic) = finish_without_response r terminal diagnostic

-- A refused call leaves the record as it was.
unfoldable pub run : ModelAttemptRecord → List Call → ModelAttemptRecord
unfolding call
run r [] = r
run r (c ∷ cs) = run (elim (call r c) [ ok r' ↦ r' | err _ ↦ r ]) cs

abbrev pub is_decoded : ModelAttemptStatus → Bool
is_decoded ModelAttemptStatus.decoded = true
is_decoded _ = false

-- The statuses that an attempt reaches only by a response, and only without one.
abbrev pub has_answer : ModelAttemptStatus → Bool
has_answer ModelAttemptStatus.responded = true
has_answer ModelAttemptStatus.decoded = true
has_answer ModelAttemptStatus.decode_failed = true
has_answer _ = false

abbrev pub lacks_answer : ModelAttemptStatus → Bool
lacks_answer ModelAttemptStatus.prepared = true
lacks_answer ModelAttemptStatus.dispatching = true
lacks_answer ModelAttemptStatus.confirmed_not_sent = true
lacks_answer ModelAttemptStatus.ambiguous = true
lacks_answer ModelAttemptStatus.cancelled_ambiguous = true
lacks_answer _ = false

pub record IsEvidenced (r : ModelAttemptRecord) : Type 0 where
  pub decoded : is_decoded r.status ≡ is_some r.continuation_digest
  pub answered : has_answer r.status && not (is_some r.response_digest) ≡ false
  pub unanswered : lacks_answer r.status && is_some r.response_digest ≡ false

call-IsEvidenced :
    (r r' : ModelAttemptRecord) (c : Call) → call r c ≡ ok r' → IsEvidenced r → IsEvidenced r'
unfolding call mark_dispatching record_response mark_decoded mark_decode_failed mark_response_failed
    finish_without_response
call-IsEvidenced r r' Call.dispatches e h = record {
  decoded = let kept = h.decoded in ground arith;
  answered = let kept = h.answered in ground arith;
  unanswered = let kept = h.unanswered in ground arith;
}
call-IsEvidenced r r' (Call.responds response model usage) e h = record {
  decoded = let kept = h.decoded in ground arith;
  answered = let kept = h.answered in ground arith;
  unanswered = let kept = h.unanswered in ground arith;
}
call-IsEvidenced r r' (Call.decodes continuation) e h = record {
  decoded = let kept = h.decoded in ground arith;
  answered = let kept = h.answered in ground arith;
  unanswered = let kept = h.unanswered in ground arith;
}
call-IsEvidenced r r' (Call.fails_to_decode diagnostic) e h = record {
  decoded = let kept = h.decoded in ground arith;
  answered = let kept = h.answered in ground arith;
  unanswered = let kept = h.unanswered in ground arith;
}
call-IsEvidenced r r' (Call.fails_after_response diagnostic) e h = record {
  decoded = let kept = h.decoded in ground arith;
  answered = let kept = h.answered in ground arith;
  unanswered = let kept = h.unanswered in ground arith;
}
call-IsEvidenced r r' (Call.ends terminal diagnostic) e h = record {
  decoded = let kept = h.decoded in ground arith;
  answered = let kept = h.answered in ground arith;
  unanswered = let kept = h.unanswered in ground arith;
}

run-IsEvidenced : (r : ModelAttemptRecord) (cs : List Call) → IsEvidenced r → IsEvidenced (run r cs)
unfolding run
run-IsEvidenced r [] h = h
run-IsEvidenced r (c ∷ cs) h = elim (Result-cases (call r c)) [
  | inl (r', e) ↦ rw e (run-IsEvidenced r' cs (call-IsEvidenced r r' c e h))
  | inr (x, e) ↦ rw e (run-IsEvidenced r cs h)
]

-- After any calls of the operations of a model attempt, refused ones included, on an attempt that
-- `new` made: it has a continuation digest exactly if it is decoded; it has a response digest if it
-- is responded, decoded or failed to decode; and it has none if it is prepared, dispatching,
-- confirmed not sent, ambiguous or cancelled as ambiguous.
pub run-new-IsEvidenced :
    (spec : ModelAttemptSpec) (r : ModelAttemptRecord) (cs : List Call)
    → new spec ≡ ok r
    → IsEvidenced (run r cs)
unfolding new
run-new-IsEvidenced spec r cs e =
    run-IsEvidenced r cs
      (record { decoded = ground arith; answered = ground arith; unanswered = ground arith })

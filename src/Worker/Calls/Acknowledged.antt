-- ===== src/Worker/Calls/Acknowledged.antt =====
-- Delivery and acknowledgement of a message of the worker's outbox (crates/alloyport-worker/src/adapters/
-- sqlite/attempt_store/outbox.rs), one after the other.
use alloyport.Prelude.{
  ℕ, ◌≤◌, ◌≡◌, refl, ◌∙◌, ap, arith, Bool, true, false, ◌&&◌, none, some, List, [], ◌∷◌, any, push,
  ok,
}
use alloyport.Prelude.Text.{Text, text_eq, text_eq_iff}
use alloyport.Prelude.Maps.{get}
use alloyport.Worker.Journal.{Json, MessageRow, DeliveryRow, Journal, i64_max, to_i64}
use alloyport.Worker.Outbox.{is_at, is_acknowledged, delete_messages, keep}
use alloyport.Worker.Calls.{call, run, delivers, acknowledges}
use alloyport.Worker.Calls.Runs.{run-ok, run-nil}
use alloyport.Worker.Calls.Delivered.{is_settled, call-is_settled}

any-push : {A : Type 0} (p : A → Bool) (xs : List A) (x : A) → p x ≡ true → any p (push xs x) ≡ true
any-push p [] x h = ground arith
any-push p (y ∷ ys) x h = ground (arith, any-push p ys x h)

abbrev delivered : Journal → Text → ℕ → Text → ℕ → Journal
delivered j c s id at_ms = record j {
  deliveries =
      push j.deliveries
        (record { connection_id = c; sequence = s; message_id = id; delivered_at_ms = at_ms });
}

call-delivers :
    (json : Json) (j : Journal) (c : Text) (s : ℕ) (id : Text) (at_ms : ℕ) (row : MessageRow)
    → get j.messages id ≡ some row
    → any (is_at c s) j.deliveries ≡ false
    → s ≤ i64_max
    → at_ms ≤ i64_max
    → call json j (delivers c s id at_ms) ≡ ok (delivered j c s id at_ms)
unfolding call to_i64
call-delivers json j c s id at_ms row g f l k = ground arith

call-acknowledges :
    (json : Json) (j : Journal) (c : Text) (n : ℕ)
    → n ≤ i64_max
    → (j' : Journal) × (call json j (acknowledges c n) ≡ ok j')
unfolding call to_i64
call-acknowledges json j c n l =
    let e : call json j (acknowledges c n)
        ≡ ok (delete_messages (keep (is_acknowledged c n) j.deliveries) j 0).journal =
      ground arith in
    (_, e)

-- A pending message that is delivered under a number that its connection has not used, and is then
-- acknowledged through that number, has left the outbox, for numbers and times within the range of the
-- database.
pub run-acknowledges :
    (json : Json) (j : Journal) (connection_id message_id : Text) (sequence at_ms through : ℕ)
    (row : MessageRow)
    → get j.messages message_id ≡ some row
    → any (is_at connection_id sequence) j.deliveries ≡ false
    → sequence ≤ through
    → through ≤ i64_max
    → at_ms ≤ i64_max
    → get
        (run json j (
          delivers connection_id sequence message_id at_ms
          ∷ acknowledges connection_id through
          ∷ [])).messages
        message_id
      ≡ none
unfolding is_settled is_acknowledged
run-acknowledges json j c id s at_ms n row g f l k m =
    let i = delivered j c s id at_ms in
    let d = call-delivers json j c s id at_ms row g f (omega arith) m in
    let (j', a) = call-acknowledges json i c n k in
    let last : DeliveryRow = record {
      connection_id = c;
      sequence = s;
      message_id = id;
      delivered_at_ms = at_ms;
    } in
    let chosen : is_acknowledged c n last && text_eq id id ≡ true =
      ground (arith, text_eq_iff c c, text_eq_iff id id) in
    let gone : is_settled (acknowledges c n) i id ≡ true =
      any-push (λ d. is_acknowledged c n d && text_eq d.message_id id) j.deliveries last chosen in
    let e =
      run-ok json j i (delivers c s id at_ms) (acknowledges c n ∷ []) d
      ∙ run-ok json i j' (acknowledges c n) [] a in
    let x = call-is_settled json i j' (acknowledges c n) id row g a in
    ap (λ (y : Journal). get y.messages id) (e ∙ run-nil json j') ∙ x ∙ rw gone refl

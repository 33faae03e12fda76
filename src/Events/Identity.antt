-- ===== src/Events/Identity.antt =====
-- The identities that the sequencer of crates/alloyport-events/src/lib.rs gives to envelopes.
use alloyport.Prelude.{ℕ, zero, suc, ◌-◌, ◌≡◌, refl, sym, ap, ◌∙◌, ◌++◌, length}
use alloyport.Prelude.Text.{
  Text, codes, decimal, value_from, value_from-decimal, append-cancel_left,
}
use alloyport.Events.{zeros, padded, event_id}

value_from-zeros : (n : ℕ) (t : Text) → value_from 0 (zeros n t) ≡ value_from 0 t
unfolding zeros
value_from-zeros zero t = refl
value_from-zeros (suc n) t = value_from-zeros n t

value_from-padded : (n : ℕ) → value_from 0 (padded n) ≡ n
unfolding padded
value_from-padded n = value_from-zeros (20 - length (decimal n)) (decimal n) ∙ value_from-decimal n

-- Envelopes of one run with the same identity have the same sequence number.
pub event_id-injective : (run_id : Text) (m n : ℕ) → event_id run_id m ≡ event_id run_id n → m ≡ n
unfolding event_id
event_id-injective run_id m n e =
    let same = append-cancel_left (run_id ++ codes ":") (padded m) (padded n) e in
    sym (value_from-padded m) ∙ ap (value_from 0) same ∙ value_from-padded n

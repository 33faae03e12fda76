-- ===== src/Runtime/Identity/Distinct.antt =====
-- The identities derived for attempts (crates/alloyport-core/src/agent_runtime_helpers.rs).
use alloyport.Prelude.{ℕ, ◌≡◌, ◌++◌, arith}
use alloyport.Prelude.Text.{Text, codes, decimal, decimal-injective, append-cancel_left, is_blank}
use alloyport.Runtime.Identity.{derived_model_attempt_id, try_identity}

-- Two attempts of an Episode have the same derived identity only if they have the same number.
pub derived_model_attempt_id-injective :
    (episode_id : Text) (m n : ℕ)
    → derived_model_attempt_id episode_id m ≡ derived_model_attempt_id episode_id n
    → m ≡ n
unfolding derived_model_attempt_id try_identity is_blank
derived_model_attempt_id-injective episode_id m n e =
    let same : codes "model-attempt-" ++ episode_id ++ codes "-" ++ decimal m
        ≡ codes "model-attempt-" ++ episode_id ++ codes "-" ++ decimal n =
      ground arith in
    decimal-injective m n (
      append-cancel_left (codes "model-attempt-" ++ episode_id ++ codes "-") (decimal m) (decimal n)
        same)

-- ===== src/Runtime/Step/Keeps.antt =====
-- Properties of all persisted states, and the rules by which a run of the reducer keeps them.
use alloyport.Prelude.{
  ℕ, ◌≡◌, refl, sym, ◌∙◌, Bool, true, false, ok, err, Result, Result-cases, Bool-cases, inl, inr,
  if◌then◌else◌,
}
use alloyport.Prelude.Text.{Text, text_eq, text_eq_iff}
use alloyport.Runtime.State.{DurableEpisodeState, AgentLoopRuntimeError, AgentRuntimeFaultPoint}
use alloyport.Model.Gateway.{ModelTurnRequest}
use alloyport.Runtime.Repository.{EpisodeRepository, VersionedEpisodeState}
use alloyport.Runtime.Exec.{
  Ports, World, M, continue, ToolInvocation, ◌>>=◌, pure, raise, lift, load, save, crash_if,
  call_model, call_tool,
}

module _ (store : EpisodeRepository) (P : DurableEpisodeState → Type 0) where
  abbrev pub Stored : World store.Repo → Type 0
  Stored w = (id : Text) (v : VersionedEpisodeState) → store.load w.repo id ≡ ok v → P v.state

  -- Whatever it returns, and wherever it fails, `m` keeps the property of the persisted states.
  pub record Keeps {A : Type 0} (m : M store.Repo A) : Type 0 where
    pub to : (w : World store.Repo) → Stored w → Stored (m w).1

  pub Keeps-pure : {A : Type 0} (a : A) → Keeps (pure a)
  unfolding pure
  Keeps-pure a = record { to = λ w h. h }

  pub Keeps-raise : {A : Type 0} (e : AgentLoopRuntimeError) → Keeps (raise {A = A} e)
  unfolding raise
  Keeps-raise e = record { to = λ w h. h }

  pub Keeps-bind :
      {A B : Type 0} (m : M store.Repo A) (f : A → M store.Repo B)
      → Keeps m
      → ((a : A) → Keeps (f a))
      → Keeps (m >>= f)
  unfolding ◌>>=◌
  Keeps-bind {A} m f km kf = record { to = λ w h. go (m w).0 (m w).1 (km.to w h) }
    where
      go :
          (r : Result AgentLoopRuntimeError A) (w : World store.Repo)
          → Stored w
          → Stored (continue r w f).1
      go (ok a) w h = (kf a).to w h
      go (err e) w h = h

  -- The rest of the run may use that the lifted computation succeeded.
  pub Keeps-lift :
      {A B : Type 0} (r : Result AgentLoopRuntimeError A) (f : A → M store.Repo B)
      → ((a : A) → r ≡ ok a → Keeps (f a))
      → Keeps (lift r >>= f)
  unfolding ◌>>=◌ lift raise
  Keeps-lift (ok a) f kf = kf a refl
  Keeps-lift (err e) f kf = Keeps-raise e

  pub Keeps-if :
      {A : Type 0} (b : Bool) (m n : M store.Repo A)
      → (b ≡ true → Keeps m)
      → (b ≡ false → Keeps n)
      → Keeps (if b then m else n)
  Keeps-if true m n km kn = km refl
  Keeps-if false m n km kn = kn refl

  -- A loaded state has the property.
  pub Keeps-load :
      {A : Type 0} (id : Text) (f : VersionedEpisodeState → M store.Repo A)
      → ((v : VersionedEpisodeState) → P v.state → Keeps (f v))
      → Keeps (load store id >>= f)
  unfolding load ◌>>=◌
  Keeps-load id f kf = record {
    to = λ w h. elim (Result-cases (store.load w.repo id)) [
      | inl (v, e) ↦ rw e ((kf v (h id v e)).to w h)
      | inr (x, e) ↦ rw e h
    ];
  }

  -- A saved state must have it.
  pub Keeps-save : (n : ℕ) (s : DurableEpisodeState) → P s → Keeps (save store n s)
  unfolding save
  Keeps-save n s p = record {
    to = λ w h. elim (Result-cases (store.save w.repo n s)) [
      | inl ((m, r), e) ↦ rw e λ id v found. elim (Bool-cases (text_eq s.episode.id id)) [
        | inl same ↦
            let here : v ≡ record { revision = m; state = s } = cc (
              rw (sym ((text_eq_iff s.episode.id id).0 same)) at found,
              store.load-save_self w.repo n s m r e,
            ) in
            rw here p
        | inr other ↦ h id v (
            sym (
              store.load-save_ne w.repo n s m r id e
                (λ q. cc (other, (text_eq_iff s.episode.id id).1 q)))
            ∙ found)
      ]
      | inr (x, e) ↦ rw e h
    ];
  }

  pub Keeps-crash_if :
      (ports : Ports) (point : AgentRuntimeFaultPoint) → Keeps (crash_if ports point)
  unfolding crash_if
  Keeps-crash_if ports point =
      Keeps-if (ports.should_crash point) _ _ (λ _. Keeps-raise _) (λ _. Keeps-pure tt)

  pub Keeps-call_model : (ports : Ports) (r : ModelTurnRequest) → Keeps (call_model ports r)
  unfolding call_model
  Keeps-call_model ports r = record { to = λ w h. h }

  pub Keeps-call_tool :
      (ports : Ports) (b : Bool) (i : ToolInvocation) → Keeps (call_tool ports b i)
  unfolding call_tool
  Keeps-call_tool ports true i = record { to = λ w h. h }
  Keeps-call_tool ports false i = record { to = λ w h. h }

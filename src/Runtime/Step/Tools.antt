-- ===== src/Runtime/Step/Tools.antt =====
-- `plan_turn_tools` and `drive_tools` (crates/alloyport-core/src/agent_runtime_tools.rs) against the step
-- relation.
use alloyport.Prelude.{
  ℕ, zero, suc, ◌+◌, ◌≡◌, ◌⊎◌, sym, Bool, true, false, Option, none, some, List, [], ◌∷◌, last,
  is_empty, All, arith, ok, Result, ok_or, ap, >>=-eq_ok, Option-cases, inl, inr, length, ltb,
}
use alloyport.Prelude.Text.{Text}
use alloyport.Digest.{Sha256Digest}
use alloyport.Agent.Episode.{EpisodeStatus}
use alloyport.Agent.Tool
use alloyport.Agent.Tool.{ToolOperationRecord, ToolOperationStatus}
use alloyport.Model.Gateway.{GatewayToolCall}
use alloyport.Runtime.State.{DurableEpisodeState, DurableTurn, DurableToolOperation, missing_turn}
use alloyport.Runtime.Repository.{EpisodeRepository, VersionedEpisodeState}
use alloyport.Runtime.Exec.{Ports, ToolGatewayOutcome}
use alloyport.Runtime.Advance.{checked_u32}
use alloyport.Runtime.ToolTurn.{
  record_error, first_pending, set_entry, with_entry, prepare_entry, is_verified, mark_pending,
  mark_ambiguous, complete, screen_call, descriptor_of, plan_call, plan_calls, plan_turn_tools,
  finish_tools, commit_tool, drive_operation, drive_tools,
}
use alloyport.Prelude.Results
use alloyport.Runtime.Identity.{derived_tool_operation_id}
use alloyport.Runtime.Step.{Step, Move, is_planned, is_active}
use alloyport.Runtime.Step.Keeps.{
  Keeps, Keeps-pure, Keeps-bind, Keeps-lift, Keeps-if, Keeps-save, Keeps-crash_if, Keeps-call_tool,
}
use alloyport.Runtime.Step.Model.{Keeps-settle, Keeps-suspend}

-- What the changes of an operation's record say when they succeed.
prepare_entry_ok :
    (r r' : ToolOperationRecord)
    → prepare_entry r ≡ ok r'
    → (r'.spec ≡ r.spec) × (is_active r'.status ≡ true)
unfolding prepare_entry Tool.transition
prepare_entry_ok r r' e = ground arith

mark_pending_ok :
    (r r' : ToolOperationRecord)
    → mark_pending r ≡ ok r'
    → (r'.spec ≡ r.spec) × (r'.status ≡ ToolOperationStatus.running)
unfolding mark_pending Tool.transition
mark_pending_ok r r' e = ground arith

mark_ambiguous_ok :
    (r r' : ToolOperationRecord)
    → mark_ambiguous r ≡ ok r'
    → (r'.spec ≡ r.spec)
      × ((r'.status ≡ ToolOperationStatus.ambiguous)
          ⊎ (r'.status ≡ ToolOperationStatus.reconciling))
unfolding mark_ambiguous Tool.transition
mark_ambiguous_ok r r' e = ground arith

complete_ok :
    (r r' : ToolOperationRecord) (status : ToolOperationStatus) (result : Sha256Digest)
    (receipts : List Sha256Digest) (satisfies : Bool)
    → complete r status result receipts satisfies ≡ ok r'
    → (r'.spec ≡ r.spec)
      × (Tool.is_terminal r'.status ≡ true)
      × (satisfies ≡ true → is_verified r.result_authority ≡ true)
unfolding complete
complete_ok r r' status result receipts satisfies e =
    (ground arith, ground arith, λ claimed. ground arith)

screen_call_ok :
    (sha : List ℕ → Sha256Digest) (episode_id : Text) (ports : Ports) (call : GatewayToolCall)
    (r r' : ToolOperationRecord)
    → r.status ≡ ToolOperationStatus.requested
    → screen_call sha episode_id ports call r ≡ ok r'
    → is_planned r'.status ≡ true
unfolding screen_call
screen_call_ok sha episode_id ports call r r' q e = ground arith

new_ok :
    (spec : Tool.ToolOperationSpec) (r : ToolOperationRecord)
    → record_error (Tool.new spec) ≡ ok r
    → r.status ≡ ToolOperationStatus.requested
unfolding Tool.new
new_ok spec r e = ground arith

-- Three checked computations in a row, the last of which leaves what `f` made of the second.
steps_ok :
    {E A B C D : Type 0} (m : Result E A) (g : A → Result E B) (f : B → Result E C) (mk : C → D)
    (d : D)
    → Results.◌>>=◌ m (λ a. Results.◌>>=◌ (g a) (λ b. Results.◌>>=◌ (f b) (λ c. ok (mk c)))) ≡ ok d
    → (a : A) × (b : B) × (c : C) × (g a ≡ ok b) × (f b ≡ ok c) × (mk c ≡ d)
steps_ok m g f mk d e =
    let (a, _, e₁) =
      >>=-eq_ok m (λ a. Results.◌>>=◌ (g a) (λ b. Results.◌>>=◌ (f b) (λ c. ok (mk c)))) e in
    let (b, e₂, e₃) = >>=-eq_ok (g a) (λ b. Results.◌>>=◌ (f b) (λ c. ok (mk c))) e₁ in
    let (c, e₄, e₅) = >>=-eq_ok (f b) (λ c. ok (mk c)) e₃ in (a, b, c, e₂, e₄, ground arith)

plan_call_ok :
    (sha : List ℕ → Sha256Digest) (episode_id : Text) (ports : Ports) (turn_id : Text)
    (input : Sha256Digest) (index : ℕ) (call : GatewayToolCall) (op : DurableToolOperation)
    → plan_call sha episode_id ports turn_id input index call ≡ ok op
    → is_planned op.entry.status ≡ true
unfolding plan_call
plan_call_ok sha episode_id ports turn_id input index call op e =
    let (id, r, r', e₁, e₂, same) =
      steps_ok
        (derived_tool_operation_id sha episode_id turn_id index
          (descriptor_of sha episode_id ports call) (sha call.raw_arguments) input)
        _ (screen_call sha episode_id ports call) (λ r'. record { entry = r'; call = call }) op e in
    rw (← same) (screen_call_ok sha episode_id ports call r r' (new_ok _ r e₁) e₂)

plan_calls_ok :
    (sha : List ℕ → Sha256Digest) (episode_id : Text) (ports : Ports) (turn_id : Text)
    (input : Sha256Digest) (index : ℕ) (calls : List GatewayToolCall)
    (ops : List DurableToolOperation)
    → plan_calls sha episode_id ports turn_id input index calls ≡ ok ops
    → All (λ op. is_planned op.entry.status ≡ true) ops × (length ops ≡ length calls)
unfolding plan_calls
plan_calls_ok sha episode_id ports turn_id input index [] ops e = ground arith
plan_calls_ok sha episode_id ports turn_id input index (call ∷ calls) ops e =
    let (op, e₁, e₂) = >>=-eq_ok _ _ e in
    let (rest, e₃, e₄) = >>=-eq_ok _ _ e₂ in
    let same : op ∷ rest ≡ ops = ground arith in
    let (planned, count) =
      plan_calls_ok sha episode_id ports turn_id input (suc index) calls rest e₃ in
    rw (← same)
      ((plan_call_ok sha episode_id ports turn_id input index call op e₁, planned), ap suc count)

-- The operation that was found first is still the first after its record is replaced by a pending
-- one.
first_pending-set_entry :
    (ops : List DurableToolOperation) (i : ℕ) (op : DurableToolOperation) (r : ToolOperationRecord)
    → first_pending ops ≡ some (i, op)
    → Tool.is_terminal r.status ≡ false
    → first_pending (set_entry ops i r) ≡ some (i, record op { entry = r })
unfolding first_pending set_entry
first_pending-set_entry [] i op r e open' = ground arith
first_pending-set_entry (o ∷ ops) zero op r e open' = ground arith
first_pending-set_entry (o ∷ ops) (suc i) op r e open' =
    ground (arith, first_pending-set_entry ops i op r)

active_pending : (s : ToolOperationStatus) → is_active s ≡ true → Tool.is_terminal s ≡ false
unfolding Tool.is_terminal
active_pending s h = ground arith

checked_u32_ok : (n m : ℕ) (e : checked_u32 n ≡ ok m) → m ≡ n
unfolding checked_u32
checked_u32_ok n m e = ground arith

newest_turn : (o : Option DurableTurn) (t : DurableTurn) → ok_or o missing_turn ≡ ok t → o ≡ some t
newest_turn o t e = ground arith

module _ (store : EpisodeRepository) (P : DurableEpisodeState → Type 0) (episode_id : Text)
    (closed : (s s' : DurableEpisodeState) → Step episode_id s s' → P s → P s')
    (sha : List ℕ → Sha256Digest) (ports : Ports) where
  -- A loaded state with a recorded turn.
  pub Keeps-plan_turn_tools :
      (v : VersionedEpisodeState)
      → P v.state
      → v.state.episode.status ≡ EpisodeStatus.turn_recorded
      → Keeps store P (plan_turn_tools store sha episode_id ports v)
  unfolding plan_turn_tools
  Keeps-plan_turn_tools v p recorded = Keeps-lift store P _ _ λ t e.
      let calls = t.semantic_turn.tool_calls in
      let reviewed = closed v.state _ (Step.move v.state _ _ recorded Move.review) p in
      Keeps-if store P (is_empty calls) _ _
        (λ _. Keeps-settle store P episode_id closed v.revision _ _ _ reviewed)
        λ _. Keeps-lift store P _ _ λ count counted.
          Keeps-if store P
            (ltb v.state.policy.max_total_tool_operations
              (length v.state.tool_operations + length calls))
            _ _
            (λ over. Keeps-settle store P episode_id closed v.revision _ _ _ (
              closed v.state _ (Step.move v.state _ _ recorded (Move.overspend (length calls) over))
                p))
            λ within.
              Keeps-if store P (ltb v.state.policy.max_tool_calls_per_turn count) _ _
                (λ _. Keeps-settle store P episode_id closed v.revision _ _ _ reviewed)
                λ few. Keeps-lift store P _ _ λ ops planned.
                  let (all_planned, same) =
                    plan_calls_ok sha episode_id ports t.entry.id v.state.next_input_digest 0 calls
                      ops planned in
                  Keeps-bind store P _ _
                    (Keeps-settle store P episode_id closed v.revision _ _ _ (
                      closed v.state _
                        (Step.plan v.state t ops recorded (newest_turn (last v.state.turns) t e)
                          all_planned same (rw same within)
                          (rw (same, sym (checked_u32_ok (length calls) count counted)) few))
                        p))
                    λ report.
                      Keeps-bind store P _ _ (Keeps-crash_if store P ports _)
                        λ _. Keeps-pure store P report

  -- A loaded state with tool work pending.
  module _ (v : VersionedEpisodeState) (p : P v.state)
      (working : v.state.episode.status ≡ EpisodeStatus.tool_work_pending) where
    Keeps-finish_tools :
        first_pending v.state.tool_operations ≡ none
        → Keeps store P (finish_tools store sha episode_id ports v)
    unfolding finish_tools
    Keeps-finish_tools ended = Keeps-lift store P _ _ λ t _.
        Keeps-settle store P episode_id closed v.revision _ _ _
          (closed v.state _ (Step.collect v.state _ working ended) p)

    -- The operation is the first pending one, and active.
    Keeps-commit_tool :
        (s : DurableEpisodeState) (i : ℕ) (op : DurableToolOperation) (n : ℕ)
        (outcome : ToolGatewayOutcome)
        → P s
        → s.episode.status ≡ EpisodeStatus.tool_work_pending
        → first_pending s.tool_operations ≡ some (i, op)
        → is_active op.entry.status ≡ true
        → Keeps store P (commit_tool store sha episode_id ports n s i op.entry outcome)
    unfolding commit_tool
    Keeps-commit_tool s i op n (ToolGatewayOutcome.completed status result receipts satisfies) q
          work first active =
        Keeps-lift store P _ _ λ r e.
          let (same, ended, verified) = complete_ok op.entry r status result receipts satisfies e in
          Keeps-bind store P _ _
            (Keeps-save store P n _ (
              closed s _ (Step.complete s i op r satisfies work first active same ended verified)
                q))
            λ _. Keeps-bind store P _ _ (Keeps-crash_if store P ports _) λ _. Keeps-pure store P _
    Keeps-commit_tool s i op n (ToolGatewayOutcome.pending diagnostic) q work first active =
        Keeps-lift store P _ _ λ r e.
          let (same, running) = mark_pending_ok op.entry r e in
          Keeps-bind store P _ _
            (Keeps-save store P n _
              (closed s _ (Step.wait s i op r work first active same running) q))
            λ _. Keeps-pure store P _
    Keeps-commit_tool s i op n (ToolGatewayOutcome.ambiguous diagnostic) q work first active =
        Keeps-lift store P _ _ λ r e.
          let (same, lost) = mark_ambiguous_ok op.entry r e in
          Keeps-suspend store P episode_id closed n _
            (closed s _ (Step.lose s i op r work first active same lost) q)

    Keeps-drive_operation :
        (i : ℕ) (op : DurableToolOperation)
        → first_pending v.state.tool_operations ≡ some (i, op)
        → Keeps store P (drive_operation store sha episode_id ports v i op)
    unfolding drive_operation
    Keeps-drive_operation i op first = Keeps-lift store P _ _ λ r e.
        let (same, active) = prepare_entry_ok op.entry r e in
        let kept = closed v.state _ (Step.engage v.state i op r working first same active) p in
        Keeps-bind store P _ _ (Keeps-save store P v.revision _ kept) λ revision.
          Keeps-bind store P _ _ (Keeps-crash_if store P ports _) λ _.
            Keeps-bind store P _ _ (Keeps-call_tool store P ports _ _) λ outcome.
              Keeps-bind store P _ _ (Keeps-crash_if store P ports _) λ _.
                Keeps-commit_tool (with_entry v.state i r) i (record op { entry = r }) revision
                  outcome kept working
                  (first_pending-set_entry v.state.tool_operations i op r first
                    (active_pending r.status active))
                  active

    pub Keeps-drive_tools : Keeps store P (drive_tools store sha episode_id ports v)
    unfolding drive_tools
    Keeps-drive_tools = elim (Option-cases (first_pending v.state.tool_operations)) [
      | inl e ↦ rw (e, drive_tools) (Keeps-finish_tools e)
      | inr ((i, op), e) ↦ rw (e, drive_tools) (Keeps-drive_operation i op e)
    ]

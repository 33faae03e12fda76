-- ===== src/Runtime/Repository/InMemory/Conflicts.antt =====
-- Sequences of writes to an InMemoryEpisodeRepository (crates/alloyport-core/src/agent_runtime_support.rs),
-- by one or several runners.
use alloyport.Prelude.{
  ℕ, ◌<◌, ◌≡◌, some, List, [], ◌∷◌, arith, Option-cases, Bool-cases, Result-cases, inl, inr, ok,
  err,
}
use alloyport.Prelude.Text.{Text, text_eq, text_eq_iff}
use alloyport.Runtime.State.{DurableEpisodeState, conflict}
use alloyport.Runtime.Repository.{VersionedEpisodeState}
use alloyport.Runtime.Repository.InMemory.{
  InMemoryEpisodeRepository, create, save, get, insert, saved, get-insert_self, get-insert_ne,
}

pub data Write : Type 0 where
  creates : DurableEpisodeState → Write
  saves : ℕ → DurableEpisodeState → Write

-- A refused write leaves the repository as it is.
unfoldable pub write : InMemoryEpisodeRepository → Write → InMemoryEpisodeRepository
write r (creates s) = elim (create r s) [ ok r' ↦ r' | err _ ↦ r ]
write r (saves n s) = elim (save r n s) [ ok (m, r') ↦ r' | err _ ↦ r ]

unfoldable pub writes : InMemoryEpisodeRepository → List Write → InMemoryEpisodeRepository
unfolding write
writes r [] = r
writes r (c ∷ cs) = writes (write r c) cs

-- The Episode is stored under a later revision than `n`.
IsPast : ℕ → Text → InMemoryEpisodeRepository → Type 0
IsPast n id r = (v : VersionedEpisodeState) × (get id r.episodes ≡ some v) × (n < v.revision)

create-IsPast :
    (n : ℕ) (id : Text) (r r' : InMemoryEpisodeRepository) (s : DurableEpisodeState)
    → create r s ≡ ok r'
    → IsPast n id r
    → IsPast n id r'
unfolding create IsPast
create-IsPast n id r r' s e (v, found, later) = elim (Option-cases (get s.episode.id r.episodes)) [
  | inl missing ↦
      let new : VersionedEpisodeState = record { revision = 0; state = s } in
      let stored : r' ≡ record { episodes = insert s.episode.id new r.episodes } = ground arith in
      (v, rw (stored, get-insert_ne s.episode.id id new r.episodes (λ same. cc)) found, later)
  | inr (u, present) ↦ absurd (ground arith)
]

save-IsPast :
    (n k m : ℕ) (id : Text) (r r' : InMemoryEpisodeRepository) (s : DurableEpisodeState)
    → save r k s ≡ ok (m, r')
    → IsPast n id r
    → IsPast n id r'
unfolding IsPast
save-IsPast n k m id r r' s e (v, found, later) =
    let (u, current, at_k, next, stored) = saved r k s m r' e in
    let new : VersionedEpisodeState = record { revision = m; state = s } in
    elim (Bool-cases (text_eq s.episode.id id)) [
      | inl h ↦
          let same : s.episode.id ≡ id = (text_eq_iff s.episode.id id).0 h in
          let held : get id r'.episodes ≡ some new =
            rw (stored, ← same) (get-insert_self s.episode.id new r.episodes) in
          let known : get s.episode.id r.episodes ≡ some v = rw same found in
          (new, held, ground arith)
      | inr h ↦ (
        v,
        rw
            (
              stored,
              get-insert_ne s.episode.id id new r.episodes
                  (λ same. cc (h, (text_eq_iff s.episode.id id).1 same)),
            )
            found,
        later,
      )
    ]

write-IsPast :
    (n : ℕ) (id : Text) (r : InMemoryEpisodeRepository) (c : Write)
    → IsPast n id r
    → IsPast n id (write r c)
unfolding write IsPast
write-IsPast n id r (creates s) h = elim (Result-cases (create r s)) [
  | inl (r', e) ↦ rw (e, write) (create-IsPast n id r r' s e h)
  | inr (x, e) ↦ rw (e, write) h
]
write-IsPast n id r (saves k s) h = elim (Result-cases (save r k s)) [
  | inl ((m, r'), e) ↦ rw (e, write) (save-IsPast n k m id r r' s e h)
  | inr (x, e) ↦ rw (e, write) h
]

writes-IsPast :
    (n : ℕ) (id : Text) (r : InMemoryEpisodeRepository) (cs : List Write)
    → IsPast n id r
    → IsPast n id (writes r cs)
unfolding writes
writes-IsPast n id r [] h = h
writes-IsPast n id r (c ∷ cs) h = writes-IsPast n id (write r c) cs (write-IsPast n id r c h)

-- Optimistic concurrency. Once a save of an Episode from revision `n` has succeeded, then after any
-- further creations and saves, of this Episode or others and by whatever runner, a save of that Episode
-- from revision `n`, whatever its state, is refused with a conflict that names `n` and a later revision.
-- So from one revision of an Episode at most one save ever succeeds.
pub writes-save_stale :
    (r : InMemoryEpisodeRepository) (n : ℕ) (s t : DurableEpisodeState) (m : ℕ)
    (r' : InMemoryEpisodeRepository) (cs : List Write)
    → save r n s ≡ ok (m, r')
    → t.episode.id ≡ s.episode.id
    → (k : ℕ) × (n < k) × (save (writes r' cs) n t ≡ err (conflict n k))
unfolding save IsPast
writes-save_stale r n s t m r' cs e same =
    let (u, found, current, next, stored) = saved r n s m r' e in
    let new : VersionedEpisodeState = record { revision = m; state = s } in
    let past : IsPast n s.episode.id r' =
      (new, rw stored (get-insert_self s.episode.id new r.episodes), omega arith) in
    let (v, held, later) = writes-IsPast n s.episode.id r' cs past in
    (v.revision, later, rw (same, held) (ground arith))

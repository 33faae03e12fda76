-- ===== src/Runtime/Repository/InMemory.antt =====
-- InMemoryEpisodeRepository: the `BTreeMap` is an association list; the code never iterates over it.
-- `Conflicts` is about sequences of writes.
pub mod Conflicts
use alloyport.Prelude.{
  ℕ, suc, ◌+◌, ◌≡◌, ◌≢◌, not, Option, none, some, List, [], ◌∷◌, arith, ltb, ◌==◌, is_some,
  if◌then◌else◌, Option-cases, inl, inr, Result, ok, err, ok_or, ◌>>=◌,
}
use alloyport.Prelude.Text.{Text, text_eq, text_eq_iff}
use alloyport.Runtime.State.{
  DurableEpisodeState, EpisodeRepositoryError, already_exists, not_found, conflict,
  revision_exhausted,
}
use alloyport.Runtime.Repository.{VersionedEpisodeState, EpisodeRepository}

pub record InMemoryEpisodeRepository : Type 0 where
  pub episodes : List (Text × VersionedEpisodeState)

-- BTreeMap::get
get : Text → List (Text × VersionedEpisodeState) → Option VersionedEpisodeState
get id [] = none
get id ((j, v) ∷ m) = if text_eq id j then some v else get id m

-- BTreeMap::insert, and the write through `get_mut`
insert :
    Text
    → VersionedEpisodeState
    → List (Text × VersionedEpisodeState)
    → List (Text × VersionedEpisodeState)
insert id v [] = (id, v) ∷ []
insert id v ((j, w) ∷ m) = if text_eq id j then (id, v) ∷ m else (j, w) ∷ insert id v m

abbrev u64_max : ℕ
u64_max = 18446744073709551615

unfoldable pub create :
    InMemoryEpisodeRepository
    → DurableEpisodeState
    → Result EpisodeRepositoryError InMemoryEpisodeRepository
unfolding get insert
create r state =
    let id = state.episode.id in
    if is_some (get id r.episodes)
    then err (already_exists id)
    else ok (record { episodes = insert id (record { revision = 0; state = state }) r.episodes })

unfoldable pub load :
    InMemoryEpisodeRepository → Text → Result EpisodeRepositoryError VersionedEpisodeState
unfolding get
load r id = ok_or (get id r.episodes) (not_found id)

unfoldable pub save :
    InMemoryEpisodeRepository
    → ℕ
    → DurableEpisodeState
    → Result EpisodeRepositoryError (ℕ × InMemoryEpisodeRepository)
unfolding get insert
save r expected state = do
  let id = state.episode.id
  current ← ok_or (get id r.episodes) (not_found id)
  if not (current.revision == expected)
      then err (conflict expected current.revision)
      else (if ltb expected u64_max
          then ok (
            expected + 1,
            record {
              episodes = insert id (record { revision = expected + 1; state = state }) r.episodes;
            },
          )
          else err revision_exhausted)

get-insert_self :
    (id : Text) (v : VersionedEpisodeState) (m : List (Text × VersionedEpisodeState))
    → get id (insert id v m) ≡ some v
unfolding get insert
get-insert_self id v [] = ground (arith, text_eq_iff id id)
get-insert_self id v ((j, w) ∷ m) =
    ground (arith, text_eq_iff id id, text_eq_iff id j, get-insert_self id v m)

get-insert_ne :
    (id j : Text) (v : VersionedEpisodeState) (m : List (Text × VersionedEpisodeState))
    → id ≢ j
    → get j (insert id v m) ≡ get j m
unfolding get insert
get-insert_ne id j v [] h = ground (arith, text_eq_iff j id)
get-insert_ne id j v ((i, w) ∷ m) h =
    ground (arith, text_eq_iff j id, text_eq_iff id i, text_eq_iff j i, get-insert_ne id j v m h)

-- A successful save found the expected revision, and stores the state under the next one.
saved :
    (r : InMemoryEpisodeRepository) (n : ℕ) (s : DurableEpisodeState) (m : ℕ)
    (r' : InMemoryEpisodeRepository)
    → save r n s ≡ ok (m, r')
    → (v : VersionedEpisodeState) × (get s.episode.id r.episodes ≡ some v)
      × (v.revision ≡ n)
      × (m ≡ suc n)
      × (r'.episodes ≡ insert s.episode.id (record { revision = m; state = s }) r.episodes)
unfolding save
saved r n s m r' e = elim (Option-cases (get s.episode.id r.episodes)) [
  | inl missing ↦ ground arith
  | inr (v, found) ↦ (v, found, ground arith, ground arith, ground arith)
]

pub load-save_self :
    (r : InMemoryEpisodeRepository) (n : ℕ) (s : DurableEpisodeState) (m : ℕ)
    (r' : InMemoryEpisodeRepository)
    → save r n s ≡ ok (m, r')
    → load r' s.episode.id ≡ ok (record { revision = m; state = s })
unfolding load
load-save_self r n s m r' e =
    let (v, found, current, next, stored) = saved r n s m r' e in
    rw (stored, get-insert_self s.episode.id (record { revision = m; state = s }) r.episodes)

pub load-save_ne :
    (r : InMemoryEpisodeRepository) (n : ℕ) (s : DurableEpisodeState) (m : ℕ)
    (r' : InMemoryEpisodeRepository) (id : Text)
    → save r n s ≡ ok (m, r')
    → s.episode.id ≢ id
    → load r' id ≡ load r id
unfolding load
load-save_ne r n s m r' id e other =
    let (v, found, current, next, stored) = saved r n s m r' e in
    rw (stored, get-insert_ne s.episode.id id (record { revision = m; state = s }) r.episodes other)

pub save_current :
    (r : InMemoryEpisodeRepository) (n : ℕ) (s : DurableEpisodeState) (m : ℕ)
    (r' : InMemoryEpisodeRepository)
    → save r n s ≡ ok (m, r')
    → (v : VersionedEpisodeState) × (load r s.episode.id ≡ ok v) × (v.revision ≡ n) × (m ≡ suc n)
unfolding load
save_current r n s m r' e =
    let (v, found, current, next, stored) = saved r n s m r' e in (v, rw found, current, next)

abbrev pub in_memory : EpisodeRepository
in_memory = record {
  Repo = InMemoryEpisodeRepository;
  create = create;
  load = load;
  save = save;
  load-save_self = load-save_self;
  load-save_ne = load-save_ne;
  save_current = save_current;
}

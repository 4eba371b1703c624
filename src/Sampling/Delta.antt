-- ===== src/Sampling/Delta.antt =====
-- What the delta of two snapshots says.
use codex_storage_doctor.Prelude.{String, ◌≡◌, refl, Option, none, some, List, [], ◌∷◌, map}
use codex_storage_doctor.Json.{ℤ, pos}
use codex_storage_doctor.Int.{add, sub, add-sub}
use codex_storage_doctor.Models.Inspection.{LevelAggregate, known_levels}
use codex_storage_doctor.Models.Sample.{LogicalSnapshot, SampleDelta}
use codex_storage_doctor.Sampling.{optional_delta, level_or_zero, level_delta, delta}

-- The second number is the first with the difference added; without a difference, one of the
-- numbers is not known.
abbrev pub Follows : Option ℤ → Option ℤ → Option ℤ → Type 0
Follows (some before) (some after) (some d) = add before d ≡ after
Follows none after none = Unit
Follows before none none = Unit
Follows _ _ _ = ⊥

optional_delta-Follows :
    (before after : Option ℤ) → Follows before after (optional_delta before after)
unfolding optional_delta
optional_delta-Follows none none = tt
optional_delta-Follows none (some a) = tt
optional_delta-Follows (some b) none = tt
optional_delta-Follows (some b) (some a) = add-sub a b

-- The deltas of the named levels, one for each name: the level's numbers in the later snapshot are those
-- in the earlier one with the delta added. A level that a snapshot lacks counts as zero there.
abbrev pub Levels :
    List LevelAggregate → List LevelAggregate → List String → List LevelAggregate → Type 0
Levels before after [] [] = Unit
Levels before after (n ∷ names) (d ∷ ds) =
    (d.level ≡ n)
    × (add (level_or_zero n before).rows d.rows ≡ (level_or_zero n after).rows)
    × (add (level_or_zero n before).estimated_bytes d.estimated_bytes
        ≡ (level_or_zero n after).estimated_bytes)
    × Levels before after names ds
Levels before after _ _ = ⊥

-- There are deltas of the known levels where both snapshots have levels, and none elsewhere.
abbrev pub LevelsFollow : List LevelAggregate → List LevelAggregate → List LevelAggregate → Type 0
LevelsFollow [] after d = d ≡ []
LevelsFollow (b ∷ bs) [] d = d ≡ []
LevelsFollow (b ∷ bs) (a ∷ more) d = Levels (b ∷ bs) (a ∷ more) known_levels d

Levels-map :
    (before after : List LevelAggregate) (names : List String)
    → Levels before after names (
        map
          (λ level. record {
            level = level;
            rows = sub (level_or_zero level after).rows (level_or_zero level before).rows;
            estimated_bytes =
                sub
                  (level_or_zero level after).estimated_bytes
                  (level_or_zero level before).estimated_bytes;
          })
          names)
Levels-map before after [] = tt
Levels-map before after (n ∷ names) = (
  refl,
  add-sub _ (level_or_zero n before).rows,
  add-sub _ (level_or_zero n before).estimated_bytes,
  Levels-map before after names,
)

level_delta-LevelsFollow :
    (before after : List LevelAggregate) → LevelsFollow before after (level_delta before after)
unfolding level_delta
level_delta-LevelsFollow [] after = refl
level_delta-LevelsFollow (b ∷ bs) [] = refl
level_delta-LevelsFollow (b ∷ bs) (a ∷ more) = Levels-map (b ∷ bs) (a ∷ more) known_levels

abbrev pub Reconciles : LogicalSnapshot → LogicalSnapshot → SampleDelta → Type 0
Reconciles before after d =
    (add (pos before.database_size_bytes) d.database_size_bytes ≡ pos after.database_size_bytes)
    × (add (pos before.wal_size_bytes) d.wal_size_bytes ≡ pos after.wal_size_bytes)
    × (add (pos before.shm_size_bytes) d.shm_size_bytes ≡ pos after.shm_size_bytes)
    × Follows before.row_count after.row_count d.row_count
    × Follows before.max_id after.max_id d.max_id
    × Follows before.sqlite_sequence after.sqlite_sequence d.sqlite_sequence
    × Follows before.estimated_bytes after.estimated_bytes d.estimated_bytes
    × Follows before.process_write_bytes after.process_write_bytes d.process_write_bytes
    × LevelsFollow before.levels after.levels d.levels

-- Each number of the later snapshot is that of the earlier one with the delta added, and the delta
-- lacks a number only where a snapshot does. Where both snapshots have levels, the delta has an entry
-- for each known level, which does the same for its rows and its bytes; elsewhere it has no entry.
pub delta-Reconciles :
    (before after : LogicalSnapshot) → Reconciles before after (delta before after)
unfolding delta
delta-Reconciles before after = (
  add-sub _ (pos before.database_size_bytes),
  add-sub _ (pos before.wal_size_bytes),
  add-sub _ (pos before.shm_size_bytes),
  optional_delta-Follows _ _,
  optional_delta-Follows _ _,
  optional_delta-Follows _ _,
  optional_delta-Follows _ _,
  optional_delta-Follows _ _,
  level_delta-LevelsFollow before.levels after.levels,
)

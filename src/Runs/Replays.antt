-- ===== src/Runs/Replays.antt =====
-- What a repeated start gives (source/services/Ultravisor-Beacon-RunManager.cjs).
use ultravisor.Base.{
  ℕ, ◌==◌, true, false, some, List, [], ◌∷◌, ◌≡◌, refl, ◌∙◌, arith, if◌then◌else◌, Bool-cases,
  Option-cases, inl, inr,
}
use ultravisor.Base.Dict.{Dict, lookup, insert, lookup-insert}
use ultravisor.Work.{Text}
use ultravisor.Runs.Manager.{RunTable, Run, RunInfo, Manager, create_run, find_run, start_run}

insert_self {ℓ} : {V : Type ℓ} (k : ℕ) (v : V) (m : Dict V) → lookup k m ≡ some v → insert k v m ≡ m
unfolding lookup insert
insert_self k v [] h = ground arith
insert_self k v ((j, w) ∷ m) h = elim (Bool-cases (j == k)) [
  | inl e ↦ ground arith
  | inr e ↦ ground (arith, insert_self k v m)
]

eq_refl : (k : ℕ) → (k == k) ≡ true
eq_refl k = ground arith

module _ (table : RunTable) (mint : ℕ → ℕ → Text) where
  open table use {Rows, newest_by_key}

  -- Any number of starts, each at its time.
  unfoldable pub start_runs : List (ℕ × RunInfo) → Manager table → Manager table
  start_runs [] g = g
  start_runs ((now, info) ∷ rest) g = start_runs rest (start_run table mint now info g).0

  cache-create_run :
      (now : ℕ) (info : RunInfo) (g : Manager table)
      → (create_run table mint now info g).0.cache ≡ (
          if info.key == 0
          then g.cache
          else insert info.key (create_run table mint now info g).1 g.cache)
  unfolding create_run
  cache-create_run now info g = elim (Option-cases g.store) [
    | inl e ↦ rw (e, create_run) (ground arith)
    | inr (rows, e) ↦ rw (e, create_run) (ground arith)
  ]

  -- A start caches its run under the key.
  cache-start_run :
      (now : ℕ) (info : RunInfo) (g : Manager table)
      → (start_run table mint now info g).0.cache ≡ (
          if info.key == 0
          then g.cache
          else insert info.key (start_run table mint now info g).1 g.cache)
  unfolding start_run
  cache-start_run now info g = elim (Bool-cases (info.key == 0)) [
    | inl k ↦ simp k (cache-create_run now info g ∙ simp k refl)
    | inr k ↦ elim (Option-cases (find_run table info.key g)) [
      | inl e ↦ simp (k, e) (cache-create_run now info g ∙ simp k refl)
      | inr (r, e) ↦ simp (k, e) refl
    ]
  ]

  find_run-known :
      (key : Text) (r : Run) (g : Manager table)
      → lookup key g.cache ≡ some r
      → find_run table key g ≡ some r
  unfolding find_run
  find_run-known key r g h = rw (h, find_run) refl

  -- A key that is cached gives its run, and nothing changes.
  start_run-known :
      (now : ℕ) (info : RunInfo) (r : Run) (g : Manager table)
      → (info.key == 0) ≡ false
      → lookup info.key g.cache ≡ some r
      → start_run table mint now info g ≡ (g, r)
  unfolding start_run
  start_run-known now info r g k h =
      simp (k, find_run-known info.key r g h, insert_self info.key r g.cache h) refl

  start_run-cached :
      (now : ℕ) (info : RunInfo) (key : Text) (r : Run) (g : Manager table)
      → lookup key g.cache ≡ some r
      → lookup key (start_run table mint now info g).0.cache ≡ some r
  start_run-cached now info key r g h = elim (Bool-cases (info.key == 0)) [
    | inl k ↦ simp (cache-start_run now info g, k) h
    | inr k ↦ elim (Bool-cases (info.key == key)) [
      | inl same ↦
          let there : lookup info.key g.cache ≡ some r = ground arith in
          simp (start_run-known now info r g k there) h
      | inr other ↦ simp (cache-start_run now info g, k, lookup-insert, other) h
    ]
  ]

  start_runs-cached :
      (starts : List (ℕ × RunInfo)) (key : Text) (r : Run) (g : Manager table)
      → lookup key g.cache ≡ some r
      → lookup key (start_runs starts g).cache ≡ some r
  unfolding start_runs
  start_runs-cached [] key r g h = h
  start_runs-cached ((now, info) ∷ rest) key r g h =
      start_runs-cached rest key r (start_run table mint now info g).0
        (start_run-cached now info key r g h)

  -- A start with a key, repeated after any number of starts with this or other keys, gives the run
  -- of the first start again and changes nothing, whatever the table does.
  pub start_run-start_runs :
      (now later : ℕ) (info again : RunInfo) (starts : List (ℕ × RunInfo)) (g : Manager table)
      → (info.key == 0) ≡ false
      → again.key ≡ info.key
      → start_run table mint later again (start_runs starts (start_run table mint now info g).0) ≡ (
        start_runs starts (start_run table mint now info g).0,
        (start_run table mint now info g).1,
      )
  start_run-start_runs now later info again starts g keyed same =
      let first = start_run table mint now info g in
      let cached : lookup info.key first.0.cache ≡ some first.1 =
        simp (cache-start_run now info g, keyed, lookup-insert, eq_refl info.key) refl in
      start_run-known later again first.1 (start_runs starts first.0) (rw same keyed)
        (rw same (start_runs-cached starts info.key first.1 first.0 cached))

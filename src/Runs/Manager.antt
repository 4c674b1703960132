-- ===== src/Runs/Manager.antt =====
-- The run manager (source/services/Ultravisor-Beacon-RunManager.cjs) over the run functions of the
-- queue store (source/services/persistence/Ultravisor-Beacon-QueueStore.cjs). The table of runs, which
-- the package Meadow keeps, is an argument: a type of states with its reads and writes. `Metadata`
-- and GUIDs are left out.
use ultravisor.Base.{
  ℕ, suc, ◌==◌, Bool, true, false, Option, none, some, if◌then◌else◌, or_num, or_else,
}
use ultravisor.Base.Dict.{Dict, lookup, insert, delete}
use ultravisor.Work.{Text}

-- `State`
pub data RunState : Type 0 where
  active ended canceled : RunState
  other_state : Text → RunState

pub record Run : Type 0 where
  pub id : Text
  pub key : Text
  pub tag : Text
  pub state : RunState
  pub started_at : ℕ
  pub ended_at : Option ℕ
  pub canceled_at : Option ℕ
  pub cancel_reason : Text

pub record RunInfo : Type 0 where
  pub key : Text
  pub tag : Text

-- The fields of `pExtras` that are there.
pub record Extras : Type 0 where
  pub ended_at : Option ℕ
  pub canceled_at : Option ℕ
  pub cancel_reason : Text

-- `doCreate`, the read of a row by its RunID, the read by its key with the highest ID first and a
-- cap of one, and `doUpdate` of the row with this RunID.
pub record RunTable : Type 1 where
  pub Rows : Type 0
  pub create : Run → Rows → Rows
  pub by_id : Text → Rows → Option Run
  pub newest_by_key : Text → Rows → Option Run
  pub update : Text → (Run → Run) → Rows → Rows

abbrev pub patch_run : RunState → Extras → Run → Run
patch_run state x r = record r {
  state = state;
  ended_at = elim x.ended_at [ none ↦ r.ended_at | some t ↦ some t ];
  canceled_at = elim x.canceled_at [ none ↦ r.canceled_at | some t ↦ some t ];
  cancel_reason = or_num x.cancel_reason r.cancel_reason;
}

module _ (table : RunTable) where
  open table use {Rows, create, by_id, newest_by_key, update}

  -- The manager, and its store where that is there and enabled.
  pub record Manager : Type 0 where
    pub counter : ℕ
    pub cache : Dict Run
    pub store : Option Rows

  abbrev pub get_by_key : Text → Rows → Option Run
  get_by_key key rows = if key == 0 then none else newest_by_key key rows

  unfoldable pub update_run_state : Text → RunState → Extras → Rows → Rows
  update_run_state id state x rows = elim (by_id id rows) [
    | none ↦ rows
    | some r ↦ update id (patch_run state x) rows
  ]

  -- `insertRun` gives back what it reads after the write.
  unfoldable pub insert_run : Run → Rows → Rows × Option Run
  insert_run r rows = (create r rows, by_id r.id (create r rows))

  abbrev pub new_run : Text → ℕ → RunInfo → Run
  new_run id now info = record {
    id = id;
    key = info.key;
    tag = info.tag;
    state = active;
    started_at = now;
    ended_at = none;
    canceled_at = none;
    cancel_reason = 0;
  }

  -- A run that is cached under its key.
  abbrev pub remember : Text → Run → Manager → Manager
  remember key r g = if key == 0 then g else record g { cache = insert key r g.cache }

  -- `mint` composes the RunID from the hub's name, the time and the counter.
  unfoldable pub create_run : (ℕ → ℕ → Text) → ℕ → RunInfo → Manager → Manager × Run
  unfolding insert_run
  create_run mint now info g =
      let r : Run = new_run (mint now (suc g.counter)) now info in
      let counted = record g { counter = suc g.counter } in
      elim g.store [
        | none ↦ (remember info.key r counted, r)
        | some rows ↦
            let (rows', saved) = insert_run r rows in
            let kept = or_else saved r in
            (remember info.key kept (record counted { store = some rows' }), kept)
      ]

  -- What the key already stands for, in the cache or else in the store.
  unfoldable pub find_run : Text → Manager → Option Run
  find_run key g = elim (lookup key g.cache) [
    | some r ↦ some r
    | none ↦ elim g.store [ none ↦ none | some rows ↦ get_by_key key rows ]
  ]

  -- A run that was found is cached; one from the cache is there already.
  unfoldable pub start_run : (ℕ → ℕ → Text) → ℕ → RunInfo → Manager → Manager × Run
  start_run mint now info g =
      if info.key == 0 then create_run mint now info g else elim (find_run info.key g) [
        | some r ↦ (record g { cache = insert info.key r g.cache }, r)
        | none ↦ create_run mint now info g
      ]

  unfoldable pub get_run : Text → Manager → Option Run
  get_run id g = elim g.store [ none ↦ none | some rows ↦ by_id id rows ]

  abbrev pub forget : Text → Manager → Manager
  forget key g = if key == 0 then g else record g { cache = delete key g.cache }

  unfoldable pub close_run : Text → RunState → Extras → Manager → Manager × Bool
  unfolding update_run_state
  close_run id state x g = elim g.store [
    | none ↦ (g, false)
    | some rows ↦ elim (by_id id rows) [
      | none ↦ (g, false)
      | some r ↦ (forget r.key (record g { store = some (update_run_state id state x rows) }), true)
    ]
  ]

  -- `pFinalState || 'Ended'`
  unfoldable pub end_run : ℕ → Text → Option RunState → Manager → Manager × Bool
  unfolding close_run
  end_run now id final g =
      close_run id (or_else final ended)
        (record { ended_at = some now; canceled_at = none; cancel_reason = 0 }) g

  unfoldable pub cancel_run : ℕ → Text → Text → Manager → Manager × Bool
  unfolding close_run
  cancel_run now id reason g =
      close_run id canceled
        (record { ended_at = some now; canceled_at = some now; cancel_reason = reason }) g

-- ===== src/Engine/Steps.antt =====
-- The operations on runs as steps, and what they keep (source/services/Ultravisor-ExecutionEngine.cjs,
-- source/services/Ultravisor-ExecutionManifest.cjs).
use ultravisor.Base.{
  ℕ, ◌==◌, ◌≡◌, refl, sym, subst, ◌∙◌, true, false, [], ◌∷◌, Option, some, inl, inr, Bool-cases,
}
use ultravisor.Base.Dict.{lookup, insert, lookup-insert}
use ultravisor.Work.{Text}
use ultravisor.Status.{is_waiting, is_in_progress}
use ultravisor.Engine.Graph.{Graph}
use ultravisor.Engine.Context.{Context}
use ultravisor.Engine.Execute.{Services, pause}
use ultravisor.Engine.Rollup.{finalize}
use ultravisor.Engine.Runs.{
  Runs, RunReply, process_and_finalize, execute_operation, resume_waiting_runs, each_run,
  load_manifest, abandon_run, abandon_stale_runs,
}
use ultravisor.Engine.Resume.{Value, resume_operation, stall_operation, force_error}
use ultravisor.Engine.Checkpoint.{retry_from_checkpoint}
use ultravisor.Engine.Outcome.{
  process_and_finalize-EndsWell, process_and_finalize-some, accept_ended,
}
use ultravisor.Engine.Settled.{IsSettled, EndsWell-IsSettled}

-- An operation on the runs that comes to its end. A run that `startOperationAsync` answers with counts
-- from its tick on, which is an execution.
pub data Step (env : Services) (operations : Text → Option Graph) : Runs → Runs → Type 0 where
  executes :
      (fuel : ℕ) (run operation : Text) (g : Option Graph) (runs : Runs) (a : RunReply)
      → execute_operation fuel env run operation g runs ≡ some a
      → Step env operations runs a.runs
  resumes :
      (fuel : ℕ) (run h : Text) (v : Value) (runs : Runs) (a : RunReply)
      → resume_operation fuel env run h v runs ≡ some a
      → Step env operations runs a.runs
  forces :
      (fuel : ℕ) (run h : Text) (runs : Runs) (a : RunReply)
      → force_error fuel env run h runs ≡ some a
      → Step env operations runs a.runs
  stalls : (run h : Text) (runs : Runs) → Step env operations runs (stall_operation run h runs).runs
  retries :
      (run : Text) (chosen : Option Text) (runs : Runs)
      → Step env operations runs
          (retry_from_checkpoint operations env.registry run chosen runs).runs
  restarts :
      (runs : Runs) → Step env operations runs (resume_waiting_runs operations env.registry runs)
  abandons :
      (run : Text) (runs after : Runs)
      → abandon_run run runs ≡ some after
      → Step env operations runs after
  abandons_stale : (runs : Runs) → Step env operations runs (abandon_stale_runs runs)

-- The runs in the memory of a process.
pub data Reachable (env : Services) (operations : Text → Option Graph) : Runs → Type 0 where
  at_first : Reachable env operations []
  after :
      (runs next : Runs)
      → Reachable env operations runs
      → Step env operations runs next
      → Reachable env operations next
  -- The process that wrote the manifest may have been another one: a restart begins with no runs.
  -- The first manifest is of a run at rest; the second is a checkpoint of one that goes on, in
  -- whatever state, which a crash leaves.
  loads :
      (written runs : Runs) (run : Text) (c : Context)
      → Reachable env operations written
      → lookup run written ≡ some c
      → Reachable env operations runs
      → Reachable env operations (load_manifest run c runs)
  loads_checkpoint :
      (runs : Runs) (run : Text) (c : Context)
      → is_in_progress c.status ≡ true
      → Reachable env operations runs
      → Reachable env operations (load_manifest run c runs)

abbrev pub AllSettled : Runs → Type 0
AllSettled runs = (run : Text) (c : Context) → lookup run runs ≡ some c → IsSettled c

pub insert-AllSettled :
    (run : Text) (c : Context) (runs : Runs)
    → IsSettled c
    → AllSettled runs
    → AllSettled (insert run c runs)
insert-AllSettled run c runs s all k d h = elim (Bool-cases (run == k)) [
  | inl e ↦
      let is : some c ≡ some d = sym (lookup-insert run k c runs ∙ rw e refl) ∙ h in
      let same : c ≡ d = cc is in subst IsSettled same s
  | inr e ↦ all k d (sym (lookup-insert run k c runs ∙ rw e refl) ∙ h)
]

lookup-each_run :
    (f : Context → Context) (runs : Runs) (k : Text) (d : Context)
    → lookup k (each_run f runs) ≡ some d
    → (c : Context) × (lookup k runs ≡ some c) × (f c ≡ d)
unfolding each_run lookup
lookup-each_run f [] k d h = cc
lookup-each_run f ((j, c) ∷ runs) k d h = elim (Bool-cases (j == k)) [
  | inl e ↦ let is : some (f c) ≡ some d = rw e at h in (c, rw e refl, cc is)
  | inr e ↦ rw e (lookup-each_run f runs k d (rw e at h))
]

pub each_run-AllSettled :
    (f : Context → Context) (runs : Runs)
    → ((c : Context) → IsSettled c → IsSettled (f c))
    → AllSettled runs
    → AllSettled (each_run f runs)
each_run-AllSettled f runs keeps all k d h =
    let (c, there, is) = lookup-each_run f runs k d h in
    subst IsSettled is (keeps c (all k c there))

pub process_and_finalize-AllSettled :
    (fuel : ℕ) (env : Services) (run : Text) (c : Context) (runs : Runs) (a : RunReply)
    → is_waiting c.status ≡ false
    → process_and_finalize fuel env run c runs ≡ some a
    → AllSettled runs
    → AllSettled a.runs
process_and_finalize-AllSettled fuel env run c runs a idle h all =
    let (ran, q, same) = process_and_finalize-some fuel env run c runs a h in
    let (d, ends, grown) = process_and_finalize-EndsWell fuel env run c runs a idle h in
    let settled : IsSettled d = EndsWell-IsSettled run c.live a d ends in
    let is : finalize (pause ran) ≡ d = accept_ended run runs same ends.1 in
    subst (λ (a : RunReply). AllSettled a.runs) same
      (insert-AllSettled run (finalize (pause ran)) runs (subst IsSettled (sym is) settled) all)

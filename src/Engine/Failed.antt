-- ===== src/Engine/Failed.antt =====
-- The node that a retry begins at (`retryFromCheckpoint`, `stallOperation`,
-- source/services/Ultravisor-ExecutionEngine.cjs).
use ultravisor.Base.{
  ◌⊎◌, ◌==◌, ◌≡◌, refl, ap, sym, ◌∙◌, true, List, [], ◌∷◌, ◌++◌, none, some, inl, inr, arith,
  Bool-cases,
}
use ultravisor.Base.Dict.{Dict, lookup, modify, lookup-modify, IsUnique, modify-IsUnique}
use ultravisor.Work.{Text}
use ultravisor.Status.{
  RunStatus, queued, in_progress, waiting, error, complete, stalled, failed, abandoned, retrying,
  old_pending, old_running, old_waiting, old_completed, other_status,
}
use ultravisor.Engine.Context.{Context, Execution, change_last, with_outcome}
use ultravisor.Engine.Rollup.{finalize}
use ultravisor.Engine.Resume.{mark_stall}
use ultravisor.Engine.Checkpoint.{retry_target, failed_in_manifests, last_is_bad, is_bad_outcome}

-- The last execution of the node has ended with an error or a stall.
abbrev pub HasFailed : List Execution → Type 0
HasFailed es =
    (before : List Execution) × (e : Execution) × (es ≡ before ++ e ∷ [])
    × ((e.outcome ≡ error) ⊎ (e.outcome ≡ stalled))

bad_outcome : (s : RunStatus) → is_bad_outcome s ≡ true → (s ≡ error) ⊎ (s ≡ stalled)
bad_outcome error h = inl refl
bad_outcome stalled h = inr refl
bad_outcome queued h = cc
bad_outcome in_progress h = cc
bad_outcome waiting h = cc
bad_outcome complete h = cc
bad_outcome failed h = cc
bad_outcome abandoned h = cc
bad_outcome retrying h = cc
bad_outcome old_pending h = cc
bad_outcome old_running h = cc
bad_outcome old_waiting h = cc
bad_outcome old_completed h = cc
bad_outcome (other_status t) h = cc

last_is_bad-HasFailed : (es : List Execution) → last_is_bad es ≡ true → HasFailed es
unfolding last_is_bad
last_is_bad-HasFailed [] h = cc
last_is_bad-HasFailed (e ∷ []) h = ([], e, refl, bad_outcome e.outcome h)
last_is_bad-HasFailed (e ∷ d ∷ es) h =
    let (before, x, is, bad) = last_is_bad-HasFailed (d ∷ es) h in
    (e ∷ before, x, ap (λ r. e ∷ r) is, bad)

last_is_bad-change_last :
    (e : Execution) (es : List Execution)
    → last_is_bad (change_last (with_outcome stalled) (e ∷ es)) ≡ true
unfolding last_is_bad change_last
last_is_bad-change_last e [] = refl
last_is_bad-change_last e (d ∷ []) = refl
last_is_bad-change_last e (d ∷ f ∷ es) = last_is_bad-change_last d (f ∷ es)

failed_in_manifests-last_is_bad :
    (ms : Dict (List Execution)) (k : Text)
    → IsUnique ms
    → failed_in_manifests ms ≡ some k
    → (es : List Execution) × (lookup k ms ≡ some es) × (last_is_bad es ≡ true)
unfolding failed_in_manifests lookup
failed_in_manifests-last_is_bad [] k u h = cc
failed_in_manifests-last_is_bad ((j, fs) ∷ ms) k u h = elim (Bool-cases (last_is_bad fs)) [
  | inl t ↦ let same : j ≡ k = cc (rw t at h) in (fs, rw same (ground arith), t)
  | inr t ↦
      let (es, there, bad) = failed_in_manifests-last_is_bad ms k u.1 (rw t at h) in
      (es, ground (arith, u.0), bad)
]

failed_in_manifests_found :
    (ms : Dict (List Execution)) (k : Text) (es : List Execution)
    → lookup k ms ≡ some es
    → last_is_bad es ≡ true
    → (j : Text) × (failed_in_manifests ms ≡ some j)
unfolding failed_in_manifests lookup
failed_in_manifests_found [] k es h bad = cc
failed_in_manifests_found ((j, fs) ∷ ms) k es h bad = elim (Bool-cases (last_is_bad fs)) [
  | inl t ↦ (j, rw t refl)
  | inr t ↦ elim (Bool-cases (j == k)) [
    | inl e ↦ cc (rw e at h, t, bad)
    | inr e ↦ let (i, q) = failed_in_manifests_found ms k es (rw e at h) bad in (i, rw t q)
  ]
]

-- The node that a retry after the stall begins at: one that has failed.
pub retry_target_found :
    (h : Text) (c : Context) (e : Execution) (es : List Execution)
    → IsUnique c.manifests
    → lookup h c.manifests ≡ some (e ∷ es)
    → (k : Text) × (retry_target none (finalize (mark_stall h c)) ≡ some k)
      × ((k ≡ h) ⊎ ((fs : List Execution) × (lookup k c.manifests ≡ some fs) × HasFailed fs))
unfolding retry_target mark_stall finalize
retry_target_found h c e es u there =
    let stalls = change_last (with_outcome stalled) in
    let at : lookup h (modify h stalls c.manifests) ≡ some (stalls (e ∷ es)) =
      ground (arith, lookup-modify h h stalls c.manifests, there) in
    let (k, first) =
      failed_in_manifests_found (modify h stalls c.manifests) h (stalls (e ∷ es)) at
        (last_is_bad-change_last e es) in
    let (fs, found, bad) =
      failed_in_manifests-last_is_bad (modify h stalls c.manifests) k
        (modify-IsUnique h stalls c.manifests u) first in
    (
      k,
      rw (first, retry_target) refl,
      elim (Bool-cases (h == k)) [
        | inl t ↦ inl (ground (arith, t))
        | inr t ↦ inr (
          fs,
          sym (lookup-modify h k stalls c.manifests ∙ rw t refl) ∙ found,
          last_is_bad-HasFailed fs bad,
        )
      ],
    )

-- ===== src/Engine/Settled.antt =====
-- A run between two operations (source/services/Ultravisor-ExecutionEngine.cjs,
-- source/services/Ultravisor-ExecutionManifest.cjs).
use ultravisor.Base.{
  ◌==◌, ◌&&◌, ◌≡◌, refl, sym, ◌∙◌, Bool, true, false, not, [], ◌∷◌, Option, some, inl, inr, arith,
  Bool-cases, Option-cases, or_else,
}
use ultravisor.Base.Dict.{Dict, lookup, insert, lookup-insert}
use ultravisor.Work.{Text}
use ultravisor.Status.{
  RunStatus, error, stalled, failed, complete, waiting, abandoned, queued, in_progress, retrying,
  old_pending, old_running, old_waiting, old_completed, other_status, is_waiting, is_terminal_run,
  is_in_progress, normalize, status_code,
}
use ultravisor.Engine.Graph.{Graph, Registry}
use ultravisor.Engine.Context.{Context, Output, Waiting, stalled_key, yes}
use ultravisor.Engine.Rollup.{is_set, any_set, has_error, rolled_status, finalize}
use ultravisor.Engine.Runs.{
  RunReply, is_nothing_waiting, after_restart, from_disk, abandon, abandon_stale,
  rebuild_graph_context, load_graph,
}
use ultravisor.Engine.Resume.{without_events_at, mark_stall}
use ultravisor.Engine.Checkpoint.{reset_node, dispatch_again}
use ultravisor.Engine.Outcome.{shown_status, EndsWell}

-- Its queue is empty, a run with a terminal status is not live, and one that waits has a waiting task.
abbrev pub IsSettled : Context → Type 0
IsSettled c =
    (c.pending ≡ [])
    × (is_terminal_run c.status ≡ true → c.live ≡ false)
    × (is_waiting c.status ≡ true → is_nothing_waiting c ≡ false)

not-waiting : (s : RunStatus) → is_terminal_run s ≡ true → is_waiting s ≡ false
unfolding is_terminal_run is_waiting normalize status_code
not-waiting queued h = cc
not-waiting in_progress h = cc
not-waiting waiting h = cc
not-waiting retrying h = cc
not-waiting old_pending h = cc
not-waiting old_running h = cc
not-waiting old_waiting h = cc
not-waiting (other_status t) h = cc
not-waiting error h = refl
not-waiting complete h = refl
not-waiting stalled h = refl
not-waiting failed h = refl
not-waiting abandoned h = refl
not-waiting old_completed h = refl

shown_status-waiting :
    (d : Context) → is_waiting (shown_status d) ≡ true → is_nothing_waiting d ≡ false
unfolding shown_status is_waiting
shown_status-waiting d h = elim (Bool-cases (any_set stalled_key d.outputs)) [
  | inl t ↦ cc (rw t at h)
  | inr t ↦ elim (Bool-cases (has_error d)) [
    | inl u ↦ cc (rw (t, u) at h)
    | inr u ↦ elim (Bool-cases (is_nothing_waiting d)) [
      | inl v ↦ cc (rw (t, u, v) at h)
      | inr v ↦ v
    ]
  ]
]

pub EndsWell-IsSettled :
    (run : Text) (l : Bool) (a : RunReply) (d : Context) → EndsWell run l a d → IsSettled d
EndsWell-IsSettled run l a d (ok, there, empty, shown, live) = (
  empty,
  λ t. live ∙ rw (not-waiting d.status t) refl,
  λ t. shown_status-waiting d (rw shown at t),
)

pub is_set-insert : (k v : Text) (o : Output) → (v == 0) ≡ false → is_set k (insert k v o) ≡ true
unfolding is_set
is_set-insert k v o h =
    let is : lookup k (insert k v o) ≡ some v = ground (arith, lookup-insert k k v o) in
    rw (is, is_set) (rw h refl)

pub any_set-insert :
    (k h : Text) (o : Output) (os : Dict Output)
    → is_set k o ≡ true
    → any_set k (insert h o os) ≡ true
unfolding any_set insert
any_set-insert k h o [] t = rw t refl
any_set-insert k h o ((j, p) ∷ os) t = ground (arith, any_set-insert k h o os t)

-- A run that is marked as stalled ends as stalled.
pub finalize-mark_stall :
    (h : Text) (c : Context)
    → c.pending ≡ []
    → ((finalize (mark_stall h c)).status ≡ stalled) × IsSettled (finalize (mark_stall h c))
unfolding finalize rolled_status mark_stall without_events_at is_waiting normalize status_code
finalize-mark_stall h c empty =
    let o : Output = insert stalled_key yes (or_else (lookup h c.outputs) []) in
    let marked : any_set stalled_key (insert h o c.outputs) ≡ true =
      any_set-insert stalled_key h o c.outputs (is_set-insert stalled_key yes _ refl) in
    rw marked (refl, (rw empty refl, λ t. refl, λ t. cc))

insert_waits :
    (h : Text) (w : Waiting) (m : Dict Waiting)
    → (elim (insert h w m) [ [] ↦ true | x ∷ xs ↦ false ]) ≡ false
unfolding insert
insert_waits h w [] = refl
insert_waits h w ((j, x) ∷ m) = elim (Bool-cases (j == h)) [ inl e ↦ rw e refl | inr e ↦ rw e refl ]

dispatch_again-IsSettled : (h : Text) (c : Context) → IsSettled c → IsSettled (dispatch_again h c)
unfolding dispatch_again
dispatch_again-IsSettled h c s = elim (Option-cases (lookup h c.nodes)) [
  | inl e ↦ rw (e, dispatch_again) s
  | inr (n, e) ↦ rw (e, dispatch_again) s
]

pub reset_node-IsSettled :
    (h : Text) (registry : Registry) (g : Graph) (c : Context)
    → c.pending ≡ []
    → IsSettled (dispatch_again h (reset_node h (rebuild_graph_context registry g c)))
unfolding reset_node rebuild_graph_context load_graph is_terminal_run normalize
reset_node-IsSettled h registry g c empty =
    dispatch_again-IsSettled h (reset_node h (rebuild_graph_context registry g c))
      (empty, λ t. cc, λ t. insert_waits h _ c.waiting)

both_live : (a b : Bool) → a && not b ≡ true → b ≡ false
both_live true false h = refl
both_live true true h = cc
both_live false b h = cc

both_false : (a b : Bool) → a && not b ≡ true → a ≡ false → true ≡ false
both_false true b h e = e
both_false false b h e = sym h

pub from_disk-IsSettled :
    (c : Context)
    → (is_waiting c.status ≡ true → is_nothing_waiting c ≡ false)
    → IsSettled (from_disk c)
unfolding from_disk
from_disk-IsSettled c waits = (refl, λ t. refl, λ t. rw t (waits t))

pub in_progress-not_waiting : (s : RunStatus) → is_in_progress s ≡ true → is_waiting s ≡ false
unfolding is_in_progress is_waiting normalize status_code
in_progress-not_waiting queued h = cc
in_progress-not_waiting in_progress h = refl
in_progress-not_waiting waiting h = cc
in_progress-not_waiting retrying h = cc
in_progress-not_waiting old_pending h = cc
in_progress-not_waiting old_running h = refl
in_progress-not_waiting old_waiting h = cc
in_progress-not_waiting (other_status t) h = ground arith
in_progress-not_waiting error h = cc
in_progress-not_waiting complete h = cc
in_progress-not_waiting stalled h = cc
in_progress-not_waiting failed h = cc
in_progress-not_waiting abandoned h = cc
in_progress-not_waiting old_completed h = cc

pub after_restart-IsSettled :
    (operations : Text → Option Graph) (registry : Registry) (c : Context)
    → IsSettled c
    → IsSettled (after_restart operations registry c)
unfolding after_restart rebuild_graph_context load_graph is_waiting normalize status_code
after_restart-IsSettled operations registry c (empty, dead, waits) =
    elim (Bool-cases (is_waiting c.status && not c.live)) [
      | inl t ↦ elim (Bool-cases (is_nothing_waiting c)) [
        | inl u ↦ rw (t, after_restart) (rw u (empty, dead, waits))
        | inr u ↦ elim (Option-cases (operations c.operation)) [
          | inl e ↦ rw (t, after_restart) (rw u (rw e (empty, dead, waits)))
          | inr (g, e) ↦
              rw (t, after_restart)
                (rw u (
                  rw e (
                    empty,
                    λ v. both_false (is_waiting c.status) c.live t (not-waiting c.status v),
                    waits,
                  )))
        ]
      ]
      | inr t ↦ elim (Bool-cases (is_in_progress c.status && not c.live)) [
        | inl u ↦
            rw (t, after_restart)
              (rw u (empty, λ v. both_live (is_in_progress c.status) c.live u, λ v. cc))
        | inr u ↦ rw (t, after_restart) (rw u (empty, dead, waits))
      ]
    ]

pub abandon-IsSettled : (c : Context) → IsSettled c → IsSettled (abandon c)
unfolding abandon is_waiting normalize status_code
abandon-IsSettled c (empty, dead, waits) = elim (Bool-cases (is_terminal_run c.status)) [
  | inl t ↦ rw (t, abandon) (empty, dead, waits)
  | inr t ↦ rw (t, abandon) (refl, λ t. refl, λ t. cc)
]

pub abandon_stale-IsSettled : (c : Context) → IsSettled c → IsSettled (abandon_stale c)
unfolding abandon_stale
abandon_stale-IsSettled c s = elim (Bool-cases (is_waiting c.status && not c.live)) [
  | inl t ↦ rw (t, abandon_stale) (abandon-IsSettled c s)
  | inr t ↦ elim (Bool-cases (is_in_progress c.status && not c.live)) [
    | inl u ↦ rw (t, abandon_stale) (rw u (abandon-IsSettled c s))
    | inr u ↦ rw (t, abandon_stale) (rw u s)
  ]
]

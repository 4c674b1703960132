-- ===== src/Persist/Flush.antt =====
-- What a persistence beacon is sent of the local store when it connects: `_flushQueueToBeacon`
-- (source/services/Ultravisor-QueuePersistenceBridge.cjs). The listing of the store is an argument,
-- and so is whether a call succeeds. The file of the high-water marks is left out.
use ultravisor.Base.{
  ℕ, suc, ◌==◌, Bool, true, false, not, ◌&&◌, List, [], ◌∷◌, if◌then◌else◌, leb, or_num, take,
}
use ultravisor.Work.{Text}

-- An item of the local store with the events that `listEventsForWorkItem` gives, at most 1000; a time
-- of 0 is none.
pub record Stored : Type 0 where
  pub hash : Text
  pub enqueued_at : ℕ
  pub created_at : ℕ
  pub events : List Text

pub data Call : Type 0 where
  upserts appends : Text → Call

-- The high-water mark of the beacon, the number of calls, those that succeeded, the last first, and
-- `tmpPushed`.
pub record Flush : Type 0 where
  pub mark : ℕ
  pub calls : ℕ
  pub taken : List Call
  pub pushed : ℕ

-- Whether a call succeeds, which may depend on how many came before it.
abbrev pub Dispatch : Type 0
Dispatch = ℕ → Call → Bool

-- `FLUSH_BATCH_LIMIT`
abbrev pub flush_limit : ℕ
flush_limit = 5000

abbrev pub time_of : Stored → ℕ
time_of i = or_num i.enqueued_at i.created_at

abbrev pub is_flushed : ℕ → Stored → Bool
is_flushed mark i = not (mark == 0) && not (time_of i == 0) && leb (time_of i) mark

unfoldable pub attempt : Dispatch → Call → Flush → Flush × Bool
attempt d k f =
    let ok = d f.calls k in
    (record f { calls = suc f.calls; taken = if ok then k ∷ f.taken else f.taken }, ok)

unfoldable pub send_events : Dispatch → List Text → Flush → Flush × Bool
unfolding attempt
send_events d [] f = (f, true)
send_events d (e ∷ es) f =
    let (g, ok) = attempt d (appends e) f in
    elim ok [ true ↦ send_events d es g | false ↦ (g, false) ]

unfoldable pub push_item : Dispatch → Stored → Flush → Flush × Bool
unfolding attempt send_events
push_item d i f =
    let (g, ok) = attempt d (upserts i.hash) f in
    elim ok [ true ↦ send_events d i.events g | false ↦ (g, false) ]

abbrev pub advance : Stored → Flush → Flush
advance i f = record f { mark = or_num (time_of i) f.mark; pushed = suc f.pushed }

unfoldable pub flush_items : Dispatch → List Stored → Flush → Flush
unfolding push_item
flush_items d [] f = f
flush_items d (i ∷ is) f = elim (is_flushed f.mark i) [
  | true ↦ flush_items d is f
  | false ↦
      let (g, ok) = push_item d i f in elim ok [ true ↦ flush_items d is (advance i g) | false ↦ g ]
]

-- The listing is by `EnqueuedAt` and stops at the limit.
unfoldable pub flush_queue : Dispatch → List Stored → Flush → Flush
unfolding flush_items
flush_queue d store f = flush_items d (take flush_limit store) f

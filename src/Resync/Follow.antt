-- ===== src/Resync/Follow.antt =====
-- A client over any events, lost connections and returns
-- (source/web_server/Ultravisor-API-Server.cjs).
use ultravisor.Base.{
  ◌==◌, true, false, some, List, [], ◌∷◌, ◌++◌, ◌≡◌, refl, ◌∙◌, Bool-cases, inl, inr, ◌⊎◌,
}
use mathlib.Core.List.{append-nil}
use ultravisor.Resync.Ring.{
  Stamped, is_replayable, Frame, reset, replay_begin, replay_complete, replayed, subscribe,
}
use ultravisor.Resync.After.{has_event, after}
use ultravisor.Resync.Client.{
  Following, Step, emits, connects, disconnects, take_frame, take_frames, follow, follow_all,
  AreFresh, IsFreshStep, IsFollowing,
}
use ultravisor.Resync.Emits.{emits-IsFollowing}
use ultravisor.Resync.Reconnect.{connects-IsFollowing}

take_frames-was_reset :
    (xs : List Frame) (f : Following) → f.was_reset ≡ true → (take_frames xs f).was_reset ≡ true
unfolding take_frames take_frame
take_frames-was_reset [] f h = h
take_frames-was_reset (reset g ∷ xs) f h =
    take_frames-was_reset xs (record f { was_reset = true }) refl
take_frames-was_reset (replay_begin g n ∷ xs) f h = take_frames-was_reset xs f h
take_frames-was_reset (replay_complete g n ∷ xs) f h = take_frames-was_reset xs f h
take_frames-was_reset (replayed x ∷ xs) f h =
    take_frames-was_reset xs (record f { received = f.received ++ x ∷ []; cursor = x.guid }) h

follow-was_reset : (s : Step) (f : Following) → f.was_reset ≡ true → (follow s f).was_reset ≡ true
unfolding follow
follow-was_reset (emits topic guid) f h = elim (Bool-cases (is_replayable topic)) [
  | inl r ↦ elim (Bool-cases f.connected) [ inl on ↦ simp (r, on) h | inr off ↦ simp (r, off) h ]
  | inr c ↦ simp c h
]
follow-was_reset disconnects f h = h
follow-was_reset connects f h =
    let (r, frames) = subscribe f.cursor f.ring in
    take_frames-was_reset frames (record f { ring = r; connected = true }) h

follow_all-was_reset :
    (ss : List Step) (f : Following) → f.was_reset ≡ true → (follow_all ss f).was_reset ≡ true
unfolding follow_all
follow_all-was_reset [] f h = h
follow_all-was_reset (s ∷ ss) f h = follow_all-was_reset ss (follow s f) (follow-was_reset s f h)

-- One step keeps the client's view, or tells it to start over.
follow-IsFollowing :
    (start missed : List Stamped) (s : Step) (f : Following)
    → IsFollowing start missed f
    → IsFreshStep s f
    → ((follow s f).was_reset ≡ true) ⊎ ((m : List Stamped) × IsFollowing start m (follow s f))
unfolding follow
follow-IsFollowing start missed (emits topic guid) f v fresh =
    inr (emits-IsFollowing start topic guid f missed v fresh)
follow-IsFollowing start missed disconnects f v fresh = inr (
  missed,
  record {
    whole = v.whole;
    at_cursor = v.at_cursor;
    are_real = v.are_real;
    real_cursor = v.real_cursor;
    complete = λ h. cc;
    older = v.older;
    suffix = v.suffix;
  },
)
follow-IsFollowing start missed connects f v fresh = elim (connects-IsFollowing start missed f v) [
  | inl r ↦ inl r
  | inr w ↦ inr ([], w)
]

follow_all-IsFollowing :
    (start missed : List Stamped) (ss : List Step) (f : Following)
    → IsFollowing start missed f
    → AreFresh ss f
    → ((follow_all ss f).was_reset ≡ true)
      ⊎ ((m : List Stamped) × IsFollowing start m (follow_all ss f))
unfolding follow_all
follow_all-IsFollowing start missed [] f v fresh = inr (missed, v)
follow_all-IsFollowing start missed (s ∷ ss) f v (now, later) =
    elim (follow-IsFollowing start missed s f v now) [
      | inl r ↦ inl (follow_all-was_reset ss (follow s f) r)
      | inr (m, w) ↦ follow_all-IsFollowing start m ss (follow s f) w later
    ]

-- A client has the queue's last event and an empty list of received events, and the ring is the end
-- of the history, whose GUIDs are not empty. Any events are emitted, each with a GUID that is new
-- and not empty, while the client loses its connection and comes back with the GUID of its last
-- event, any number of times. If it ends connected and was never told to start over, then it has
-- received what was added to the history: each event once and in order.
pub follow_all_lem :
    (ss : List Step) (f : Following)
    → after f.cursor f.history ≡ some []
    → (f.cursor == 0) ≡ false
    → has_event 0 f.history ≡ false
    → (older : List Stamped) → f.history ≡ older ++ f.ring.buffer
    → f.received ≡ []
    → AreFresh ss f
    → (follow_all ss f).was_reset ≡ false
    → (follow_all ss f).connected ≡ true
    → (follow_all ss f).history ≡ f.history ++ (follow_all ss f).received
follow_all_lem ss f at real reals older suffix none_yet fresh kept on =
    let begun : IsFollowing f.history [] f = record {
      whole = simp (none_yet, append-nil) refl;
      at_cursor = at;
      are_real = reals;
      real_cursor = real;
      complete = λ h. refl;
      older = older;
      suffix = suffix;
    } in
    elim (follow_all-IsFollowing f.history [] ss f begun fresh) [
      | inl r ↦ cc
      | inr (m, w) ↦
          let nothing : m ≡ [] = w.complete on in w.whole ∙ simp (nothing, append-nil) refl
    ]

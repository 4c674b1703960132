-- ===== src/Resync/Reconnect.antt =====
-- A subscription brings a client up to date or tells it to start over: the `QueueSubscribe` branch
-- (source/web_server/Ultravisor-API-Server.cjs).
use ultravisor.Base.{
  ℕ, suc, ◌==◌, true, false, none, some, List, [], ◌∷◌, ◌++◌, ◌≡◌, refl, ◌∙◌, sym, ap, subst, arith,
  length, drop, Option-cases, inl, inr, ◌⊎◌,
}
use mathlib.Core.List.{append_assoc, append-nil}
use ultravisor.Work.{Text}
use ultravisor.Resync.Ring.{
  Stamped, Ring, last_index, find_index, Frame, replay_complete, replay, replay_frames, last_guid,
  subscribe,
}
use ultravisor.Resync.After.{
  has_event, after, has_event-after, after-last_guid, after-suffix, after-drop_index,
}
use ultravisor.Resync.Client.{
  Following, connects, take_frame, take_frames, resume, follow, IsFollowing,
}

take_frames-replay :
    (xs : List Stamped) (rest : List Frame) (f : Following)
    → take_frames (replay xs ++ rest) f
      ≡ take_frames rest (record f { received = f.received ++ xs; cursor = last_guid f.cursor xs })
unfolding take_frames take_frame replay last_guid
take_frames-replay [] rest f = simp append-nil refl
take_frames-replay (x ∷ xs) rest f =
    take_frames-replay xs rest (record f { received = f.received ++ x ∷ []; cursor = x.guid })
    ∙ simp append_assoc refl

is_real-last_guid :
    (g : Text) (xs : List Stamped)
    → has_event 0 xs ≡ false
    → (g == 0) ≡ false
    → (last_guid g xs == 0) ≡ false
unfolding has_event last_guid
is_real-last_guid g [] none_empty real = real
is_real-last_guid g (x ∷ xs) none_empty real =
    is_real-last_guid x.guid xs (ground arith) (ground arith)

-- The client after a replay.
abbrev caught_up : Ring → List Stamped → Following → Following
caught_up r rest f = record f {
  ring = r;
  connected = true;
  received = f.received ++ rest;
  cursor = last_guid f.cursor rest;
}

resume-replay_frames :
    (r : Ring) (rest : List Stamped) (f : Following)
    → resume (r, replay_frames f.cursor rest) f ≡ caught_up r rest f
unfolding take_frames take_frame
resume-replay_frames r rest f =
    take_frames-replay rest (replay_complete (last_guid f.cursor rest) (length rest) ∷ [])
      (record f { ring = r; connected = true })

caught_up-IsFollowing :
    (start missed : List Stamped) (r : Ring) (f : Following)
    → IsFollowing start missed f
    → r.buffer ≡ f.ring.buffer
    → IsFollowing start [] (caught_up r missed f)
caught_up-IsFollowing start missed r f v same = record {
  whole = v.whole ∙ ap (λ l. start ++ l) (sym (append-nil (f.received ++ missed)));
  at_cursor = after-last_guid f.cursor f.history missed v.at_cursor;
  are_real = v.are_real;
  real_cursor =
      is_real-last_guid f.cursor missed
        (has_event-after 0 f.cursor f.history missed v.are_real v.at_cursor) v.real_cursor;
  complete = λ h. refl;
  older = v.older;
  suffix = v.suffix ∙ ap (λ l. v.older ++ l) (sym same);
}

-- What the ring has after the cursor is what the client has missed.
missed-ring :
    (start missed rest : List Stamped) (f : Following)
    → IsFollowing start missed f
    → after f.cursor f.ring.buffer ≡ some rest
    → rest ≡ missed
missed-ring start missed rest f v found =
    let all : after f.cursor f.history ≡ some rest =
      subst (λ l. after f.cursor l ≡ some rest) (sym v.suffix)
        (after-suffix f.cursor v.older f.ring.buffer rest found) in
    let known : after f.cursor f.history ≡ some missed = v.at_cursor in cc

follow-connects_none :
    (f : Following)
    → (f.cursor == 0) ≡ false
    → last_index f.cursor f.ring.buffer ≡ none
    → (follow connects f).was_reset ≡ true
unfolding follow subscribe find_index take_frames take_frame
follow-connects_none f real e = simp (real, e) refl

follow-connects_some :
    (f : Following) (i : ℕ)
    → (f.cursor == 0) ≡ false
    → last_index f.cursor f.ring.buffer ≡ some i
    → follow connects f
      ≡ resume
          (
            record f.ring { seq = suc (suc f.ring.seq) },
            replay_frames f.cursor (drop (suc i) f.ring.buffer),
          )
          f
unfolding follow subscribe find_index
follow-connects_some f i real e = simp (real, e) refl

module _ (start : List Stamped) where
  pub connects-IsFollowing :
      (missed : List Stamped) (f : Following)
      → IsFollowing start missed f
      → ((follow connects f).was_reset ≡ true) ⊎ IsFollowing start [] (follow connects f)
  connects-IsFollowing missed f v = elim (Option-cases (last_index f.cursor f.ring.buffer)) [
    | inl e ↦ inl (follow-connects_none f v.real_cursor e)
    | inr (i, e) ↦
        let rest : List Stamped = drop (suc i) f.ring.buffer in
        let r : Ring = record f.ring { seq = suc (suc f.ring.seq) } in
        let found : after f.cursor f.ring.buffer ≡ some rest =
          sym (after-drop_index f.cursor f.ring.buffer) ∙ rw (e) refl in
        let same : rest ≡ missed = missed-ring start missed rest f v found in
        let here : follow connects f ≡ caught_up r missed f =
          follow-connects_some f i v.real_cursor e
          ∙ resume-replay_frames r rest f
          ∙ ap (λ l. caught_up r l f) same in
        inr
          (subst (IsFollowing start []) (sym here) (caught_up-IsFollowing start missed r f v refl))
  ]

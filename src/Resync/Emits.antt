-- ===== src/Resync/Emits.antt =====
-- An emitted event leaves the client complete, or behind by one event more
-- (source/web_server/Ultravisor-API-Server.cjs).
use ultravisor.Base.{
  ℕ, ◌-◌, ◌==◌, true, false, List, [], ◌∷◌, ◌++◌, ◌≡◌, refl, ◌∙◌, sym, ap, subst, arith, length,
  drop, take, Bool-cases, inl, inr,
}
use mathlib.Core.List.{append_assoc, append-nil}
use ultravisor.Work.{Text}
use ultravisor.Engine.Names.{Name}
use ultravisor.Resync.Ring.{Stamped, Ring, is_replayable, stamped, stamp, keep_last}
use ultravisor.Resync.After.{
  has_event, after-has_event, after-append_last, after-append_new, take-append-drop,
  has_event-append_new,
}
use ultravisor.Resync.Client.{
  Following, emits, keep_event, miss_event, pass_event, follow, IsFreshStep, IsFollowing,
}

buffer-stamp :
    (topic : Name) (guid : Text) (r : Ring)
    → is_replayable topic ≡ true
    → (stamp topic guid r).buffer ≡ keep_last r.cap (r.buffer ++ stamped topic guid r ∷ [])
unfolding stamp
buffer-stamp topic guid r h = simp h refl

buffer-stamp_control :
    (topic : Name) (guid : Text) (r : Ring)
    → is_replayable topic ≡ false
    → (stamp topic guid r).buffer ≡ r.buffer
unfolding stamp
buffer-stamp_control topic guid r h = simp h refl

-- The ring with one more event is still the end of the history.
suffix-append :
    (k : ℕ) (e : Stamped) (history older buffer : List Stamped)
    → history ≡ older ++ buffer
    → history ++ e ∷ [] ≡ (older ++ take k (buffer ++ e ∷ [])) ++ drop k (buffer ++ e ∷ [])
suffix-append k e history older buffer h = rw h (
    append_assoc older buffer (e ∷ [])
    ∙ ap (λ l. older ++ l) (sym (take-append-drop k (buffer ++ e ∷ [])))
    ∙ sym (append_assoc older (take k (buffer ++ e ∷ [])) (drop k (buffer ++ e ∷ []))))

new-ne-cursor :
    (g c : Text) (xs : List Stamped)
    → has_event g xs ≡ false
    → has_event c xs ≡ true
    → (g == c) ≡ false
new-ne-cursor g c xs new old = ground arith

module _ (start : List Stamped) (topic : Name) (guid : Text) (f : Following) where
  kept-IsFollowing :
      is_replayable topic ≡ true
      → f.connected ≡ true
      → {missed : List Stamped} → IsFollowing start missed f
      → (guid == 0) ≡ false
      → IsFollowing start [] (keep_event topic guid f)
  kept-IsFollowing replayable on {missed} v real =
      let e = stamped topic guid f.ring in
      let k = length (f.ring.buffer ++ e ∷ []) - f.ring.cap in
      let none_missed : missed ≡ [] = v.complete on in
      record {
        whole =
            ap (λ l. l ++ e ∷ []) (v.whole ∙ simp (none_missed, append-nil) refl)
            ∙ append_assoc start f.received (e ∷ [])
            ∙ ap (λ l. start ++ l) (sym (append-nil (f.received ++ e ∷ [])));
        at_cursor = after-append_last e f.history;
        are_real = has_event-append_new 0 f.history e v.are_real real;
        real_cursor = real;
        complete = λ h. refl;
        older = v.older ++ take k (f.ring.buffer ++ e ∷ []);
        suffix =
            rw (buffer-stamp topic guid f.ring replayable)
              (suffix-append k e f.history v.older f.ring.buffer v.suffix);
      }

  missed-IsFollowing :
      is_replayable topic ≡ true
      → f.connected ≡ false
      → (missed : List Stamped) → IsFollowing start missed f
      → has_event guid f.history ≡ false
      → (guid == 0) ≡ false
      → IsFollowing start (missed ++ stamped topic guid f.ring ∷ []) (miss_event topic guid f)
  missed-IsFollowing replayable off missed v new real =
      let e = stamped topic guid f.ring in
      let k = length (f.ring.buffer ++ e ∷ []) - f.ring.cap in
      let other =
        new-ne-cursor guid f.cursor f.history new
          (after-has_event f.cursor f.history missed v.at_cursor) in
      record {
        whole =
            ap (λ l. l ++ e ∷ []) v.whole
            ∙ append_assoc start (f.received ++ missed) (e ∷ [])
            ∙ ap (λ l. start ++ l) (append_assoc f.received missed (e ∷ []));
        at_cursor = after-append_new f.cursor e f.history missed other v.at_cursor;
        are_real = has_event-append_new 0 f.history e v.are_real real;
        real_cursor = v.real_cursor;
        complete = λ h. cc;
        older = v.older ++ take k (f.ring.buffer ++ e ∷ []);
        suffix =
            rw (buffer-stamp topic guid f.ring replayable)
              (suffix-append k e f.history v.older f.ring.buffer v.suffix);
      }

  control-IsFollowing :
      is_replayable topic ≡ false
      → (missed : List Stamped) → IsFollowing start missed f
      → IsFollowing start missed (pass_event topic guid f)
  control-IsFollowing control missed v = record {
    whole = v.whole;
    at_cursor = v.at_cursor;
    are_real = v.are_real;
    real_cursor = v.real_cursor;
    complete = v.complete;
    older = v.older;
    suffix = rw (buffer-stamp_control topic guid f.ring control) v.suffix;
  }

  pub emits-IsFollowing :
      (missed : List Stamped)
      → IsFollowing start missed f
      → IsFreshStep (emits topic guid) f
      → (m : List Stamped) × IsFollowing start m (follow (emits topic guid) f)
  unfolding follow
  emits-IsFollowing missed v fresh = elim (Bool-cases (is_replayable topic)) [
    | inl r ↦ elim (Bool-cases f.connected) [
      | inl on ↦
          let here : follow (emits topic guid) f ≡ keep_event topic guid f = simp (r, on) refl in
          ([], subst (IsFollowing start []) (sym here) (kept-IsFollowing r on v fresh.1))
      | inr off ↦
          let here : follow (emits topic guid) f ≡ miss_event topic guid f = simp (r, off) refl in
          let m : List Stamped = missed ++ stamped topic guid f.ring ∷ [] in
          (
            m,
            subst (IsFollowing start m) (sym here)
                (missed-IsFollowing r off missed v fresh.0 fresh.1),
          )
    ]
    | inr c ↦
        let here : follow (emits topic guid) f ≡ pass_event topic guid f = simp c refl in
        (missed, subst (IsFollowing start missed) (sym here) (control-IsFollowing c missed v))
  ]

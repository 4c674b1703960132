-- ===== src/Tests/Resyncing.antt =====
-- The theorem on the queue's event stream at a client that loses its connection.
use ultravisor.Base.{true, false, List, [], ◌∷◌, ◌++◌, ◌≡◌, refl}
use ultravisor.Engine.Names.{same_name}
use ultravisor.Timeline.Aggregator.{codes}
use ultravisor.Resync.Ring.{Stamped, find_index, last_index, replay, last_guid, stamp, subscribe}
use ultravisor.Resync.After.{has_event, after}
use ultravisor.Resync.Client.{
  Following, Step, emits, disconnects, connects, take_frame, take_frames, follow, follow_all,
}
use ultravisor.Resync.Follow.{follow_all_lem}

abbrev first : Stamped
first = record { topic = codes "queue.enqueued"; guid = 31; seq = 1 }

-- The ring has room for two events.
abbrev following : Following
following = record {
  ring = record { buffer = first ∷ []; cap = 2; seq = 1 };
  history = first ∷ [];
  received = [];
  cursor = 31;
  connected = true;
  was_reset = false;
}

-- One event comes while the client is away.
abbrev steps : List Step
steps =
    emits (codes "queue.running") 32
    ∷ disconnects
    ∷ emits (codes "queue.completed") 33
    ∷ connects
    ∷ emits (codes "queue.summary") 34
    ∷ []

follow_all_example :
    (follow_all steps following).history
    ≡ following.history ++ (follow_all steps following).received
unfolding follow_all follow take_frames take_frame subscribe find_index last_index replay last_guid
    stamp same_name has_event after
follow_all_example =
    follow_all_lem steps following refl refl refl [] refl refl
      ((refl, refl), (tt, ((refl, refl), (tt, ((refl, refl), tt))))) refl refl

-- ===== src/Resync/Client.antt =====
-- A client that follows the queue's event stream over lost connections the way docs/client-integration.md
-- asks for (source/web_server/Ultravisor-API-Server.cjs is the server's side): it comes back with the
-- GUID of the last event that it kept.
use ultravisor.Base.{◌==◌, Bool, true, false, some, List, [], ◌∷◌, ◌++◌, ◌≡◌, if◌then◌else◌}
use ultravisor.Work.{Text}
use ultravisor.Engine.Names.{Name}
use ultravisor.Resync.Ring.{
  Stamped, Ring, is_replayable, stamped, stamp, Frame, reset, replay_begin, replay_complete,
  replayed, subscribe,
}
use ultravisor.Resync.After.{has_event, after}

-- The server's ring with all that it ever buffered, and a client: the events that it has received, the
-- GUID of its last one, whether it is connected and whether it was ever told to start over.
pub record Following : Type 0 where
  pub ring : Ring
  pub history : List Stamped
  pub received : List Stamped
  pub cursor : Text
  pub connected : Bool
  pub was_reset : Bool

pub data Step : Type 0 where
  emits : Name → Text → Step
  disconnects connects : Step

-- What a client keeps of the frames of a subscription.
unfoldable pub take_frame : Frame → Following → Following
take_frame (reset g) f = record f { was_reset = true }
take_frame (replay_begin g n) f = f
take_frame (replay_complete g n) f = f
take_frame (replayed x) f = record f { received = f.received ++ x ∷ []; cursor = x.guid }

unfoldable pub take_frames : List Frame → Following → Following
unfolding take_frame
take_frames [] f = f
take_frames (x ∷ xs) f = take_frames xs (take_frame x f)

-- A connected client receives an event that is buffered; a client that is not misses it. An event
-- that is not replayable does not move the client's cursor.
abbrev pub keep_event : Name → Text → Following → Following
keep_event topic guid f = record f {
  ring = stamp topic guid f.ring;
  history = f.history ++ stamped topic guid f.ring ∷ [];
  received = f.received ++ stamped topic guid f.ring ∷ [];
  cursor = guid;
}

abbrev pub miss_event : Name → Text → Following → Following
miss_event topic guid f = record f {
  ring = stamp topic guid f.ring;
  history = f.history ++ stamped topic guid f.ring ∷ [];
}

abbrev pub pass_event : Name → Text → Following → Following
pass_event topic guid f = record f { ring = stamp topic guid f.ring }

abbrev pub resume : Ring × List Frame → Following → Following
resume (r, frames) f = take_frames frames (record f { ring = r; connected = true })

unfoldable pub follow : Step → Following → Following
unfolding take_frames
follow (emits topic guid) f =
    if is_replayable topic
    then (if f.connected then keep_event topic guid f else miss_event topic guid f)
    else pass_event topic guid f
follow disconnects f = record f { connected = false }
follow connects f = resume (subscribe f.cursor f.ring) f

unfoldable pub follow_all : List Step → Following → Following
unfolding follow
follow_all [] f = f
follow_all (s ∷ ss) f = follow_all ss (follow s f)

-- The GUIDs of the emitted events are new, and not empty.
abbrev pub IsFreshStep : Step → Following → Type 0
IsFreshStep (emits topic guid) f = (has_event guid f.history ≡ false) × ((guid == 0) ≡ false)
IsFreshStep disconnects f = Unit
IsFreshStep connects f = Unit

abbrev pub AreFresh : List Step → Following → Type 0
AreFresh [] f = Unit
AreFresh (s ∷ ss) f = IsFreshStep s f × AreFresh ss (follow s f)

-- What the client has received and what it has missed make up the history since `start`, it has
-- missed nothing while it is connected, and the ring is the end of the history.
pub record IsFollowing (start : List Stamped) (missed : List Stamped) (f : Following) : Type 0 where
  pub whole : f.history ≡ start ++ (f.received ++ missed)
  pub at_cursor : after f.cursor f.history ≡ some missed
  pub are_real : has_event 0 f.history ≡ false
  pub real_cursor : (f.cursor == 0) ≡ false
  pub complete : f.connected ≡ true → missed ≡ []
  pub older : List Stamped
  pub suffix : f.history ≡ older ++ f.ring.buffer

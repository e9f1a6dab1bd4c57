-- ===== src/Threads/Loop.antt =====
-- `start`, `stop` and `_run_loop` of app/readiness.py and app/queue_worker.py, as far as they decide
-- which threads run. A start holds the lock of its object, so that starts come one after the other; all
-- else interleaves: `stop` may set the event at any time, and a thread leaves its loop when it finds the
-- event set. The loops catch every exception.
use blackbear_edge_bridge.Prelude.{
  ℕ, suc, ◌≡◌, Bool, true, false, not, Option, none, some, List, [], ◌∷◌, nat_eq, select,
  if◌then◌else◌,
}

-- `_thread` and `_stop_event`; the threads in the loop; the threads are numbered as they are made
pub record Loop : Type 0 where
  pub thread : Option ℕ
  pub stop_event : Bool
  pub live : List ℕ
  pub next : ℕ

-- what `__init__` makes
abbrev pub initial : Loop
initial = record { thread = none; stop_event = false; live = []; next = 0 }

unfoldable pub is_alive : ℕ → List ℕ → Bool
is_alive t [] = false
is_alive t (u ∷ us) = if nat_eq u t then true else is_alive t us

-- self._thread is not None and self._thread.is_alive()
abbrev pub thread_alive : Option ℕ → List ℕ → Bool
thread_alive none live = false
thread_alive (some t) live = is_alive t live

unfoldable pub is_running : Loop → Bool
is_running l = thread_alive l.thread l.live

-- the event is cleared, and a new thread started
abbrev pub launch : Loop → Loop
launch l = record {
  thread = some l.next;
  stop_event = false;
  live = l.next ∷ l.live;
  next = suc l.next;
}

-- `start` of the readiness monitor
unfoldable pub start : Bool → Loop → Loop
start enabled l = if not enabled then l else if is_running l then l else launch l

-- `self._stop_event.set()`; the join only waits
unfoldable pub stop : Loop → Loop
stop l = record l { stop_event = true }

abbrev pub without : ℕ → List ℕ → List ℕ
without t = select (λ u. not (nat_eq u t))

-- a thread's loop ends
unfoldable pub leave : ℕ → Loop → Loop
leave t l = record l { live = without t l.live }

pub data Step (enabled : Bool) (l : Loop) : Loop → Type 0 where
  starts : Step enabled l (start enabled l)
  stops : Step enabled l (stop l)
  leaves : (t : ℕ) → is_alive t l.live ≡ true → l.stop_event ≡ true → Step enabled l (leave t l)

pub data Reach (enabled : Bool) : Loop → Type 0 where
  made : Reach enabled initial
  later : {l m : Loop} → Reach enabled l → Step enabled l m → Reach enabled m

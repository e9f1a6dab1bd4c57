-- ===== src/Threads/Server.antt =====
-- `BebApiServer` of app/api_server.py: the thread around uvicorn. `start` and `stop` hold the lock, and
-- `stop` holds it while it joins, so that it is two steps: the first asks the server to exit, the second
-- follows when the thread has ended or ten seconds are over. `run` of uvicorn may return at any time.
use blackbear_edge_bridge.Prelude.{
  ℕ, suc, ◌≡◌, ◌⊎◌, Bool, true, false, not, Option, none, some, List, [], ◌∷◌, nat_eq, select,
  if◌then◌else◌, map,
}

-- a live thread, and the server that it runs once it has read `_server`
pub record ServerThread : Type 0 where
  pub id : ℕ
  pub runs : Option ℕ

-- `_thread` and `_server`, which are made together and numbered alike; the live threads; the servers
-- with `should_exit` set; whether a `stop` is in its join
pub record ApiServer : Type 0 where
  pub thread : Option ℕ
  pub server : Option ℕ
  pub live : List ServerThread
  pub should_exit : List ℕ
  pub stopping : Bool
  pub next : ℕ

abbrev pub no_server : ApiServer
no_server = record {
  thread = none;
  server = none;
  live = [];
  should_exit = [];
  stopping = false;
  next = 0;
}

abbrev pub lives : ℕ → List ServerThread → Bool
lives t [] = false
lives t (u ∷ us) = if nat_eq u.id t then true else lives t us

abbrev pub joined_alive : Option ℕ → List ServerThread → Bool
joined_alive none live = false
joined_alive (some t) live = lives t live

unfoldable pub is_running : ApiServer → Bool
is_running s = joined_alive s.thread s.live

abbrev pub launch : ApiServer → ApiServer
launch s = record s {
  thread = some s.next;
  server = some s.next;
  live = record { id = s.next; runs = none } ∷ s.live;
  next = suc s.next;
}

unfoldable pub start : Bool → ApiServer → ApiServer
start enabled s = if not enabled then s else if is_running s then s else launch s

abbrev pub ask : Option ℕ → Option ℕ → ApiServer → ApiServer
ask (some v) (some t) s = record s { should_exit = v ∷ s.should_exit; stopping = true }
ask (some v) none s = s
ask none thread s = s

-- `stop` up to the join
unfoldable pub request_stop : ApiServer → ApiServer
request_stop s = ask s.server s.thread s

-- what follows the join
unfoldable pub release : ApiServer → ApiServer
release s = record s { thread = none; server = none; stopping = false }

unfoldable pub ends : ℕ → ApiServer → ApiServer
ends t s = record s { live = select (λ (u : ServerThread). not (nat_eq u.id t)) s.live }

abbrev pub now_runs : ℕ → ℕ → ServerThread → ServerThread
now_runs t v u = if nat_eq u.id t then record u { runs = some v } else u

abbrev pub run_server : Option ℕ → ℕ → ApiServer → ApiServer
run_server none t s = ends t s
run_server (some v) t s = record s { live = map (now_runs t v) s.live }

-- `_run`, up to `run` of the server that it finds
unfoldable pub begin_run : ℕ → ApiServer → ApiServer
begin_run t s = run_server s.server t s

-- `slow` says that a join may time out
pub data ServerStep (enabled slow : Bool) (s : ApiServer) : ApiServer → Type 0 where
  starts : s.stopping ≡ false → ServerStep enabled slow s (start enabled s)
  asks : s.stopping ≡ false → ServerStep enabled slow s (request_stop s)
  releases :
      s.stopping ≡ true
      → (is_running s ≡ false) ⊎ (slow ≡ true)
      → ServerStep enabled slow s (release s)
  begins : (t : ℕ) → lives t s.live ≡ true → ServerStep enabled slow s (begin_run t s)
  thread_ends : (t : ℕ) → lives t s.live ≡ true → ServerStep enabled slow s (ends t s)

pub data ServerReach (enabled slow : Bool) : ApiServer → Type 0 where
  server_made : ServerReach enabled slow no_server
  server_later :
      {s r : ApiServer}
      → ServerReach enabled slow s
      → ServerStep enabled slow s r
      → ServerReach enabled slow r

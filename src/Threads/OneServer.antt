-- ===== src/Threads/OneServer.antt =====
-- How many servers of app/api_server.py run.
use blackbear_edge_bridge.Prelude.{
  ℕ, ◌≤◌, ◌≡◌, ◌⊎◌, inl, inr, ◌∙◌, refl, Bool, true, false, Option, none, some, [], ◌∷◌, nat_eq,
  nat_eq_refl, Bool-cases, All, length, arith, if◌then◌else◌,
}
use blackbear_edge_bridge.Threads.Server.{
  ServerThread, ApiServer, is_running, launch, start, ask, request_stop, release, ends, run_server,
  begin_run, ServerStep, starts, asks, releases, begins, thread_ends, ServerReach, server_made,
  server_later,
}

-- what a server whose joins end looks like
data Phase (s : ApiServer) : Type 0 where
  without_thread : s.live ≡ [] → Phase s
  with_thread :
      (t : ℕ) (runs : Option ℕ)
      → s.thread ≡ some t
      → s.server ≡ some t
      → (runs ≡ none) ⊎ (runs ≡ some t)
      → s.live ≡ record { id = t; runs = runs } ∷ []
      → Phase s

launched : (s : ApiServer) → s.live ≡ [] → Phase (launch s)
launched s e = with_thread s.next none refl refl (inl refl) (rw e refl)

running :
    (s : ApiServer) (t : ℕ) (runs : Option ℕ)
    → s.thread ≡ some t
    → s.live ≡ record { id = t; runs = runs } ∷ []
    → is_running s ≡ true
unfolding is_running
running s t runs h e = rw (h, e, nat_eq_refl t) refl

if_not :
    (s : ApiServer) (b : Bool)
    → Phase s
    → (s.live ≡ []) ⊎ (b ≡ true)
    → Phase (if b then s else launch s)
if_not s true p c = p
if_not s false p (inl e) = launched s e
if_not s false p (inr h) = absurd (ground (arith, h))

start-Phase : (enabled : Bool) (s : ApiServer) → Phase s → Phase (start enabled s)
unfolding start
start-Phase false s p = p
start-Phase true s (without_thread e) = if_not s (is_running s) (without_thread e) (inl e)
start-Phase true s (with_thread t runs h v own e) =
    if_not s (is_running s) (with_thread t runs h v own e) (inr (running s t runs h e))

ask-Phase : (server thread : Option ℕ) (s : ApiServer) → Phase s → Phase (ask server thread s)
ask-Phase none thread s p = p
ask-Phase (some v) none s p = p
ask-Phase (some v) (some t) s (without_thread e) = without_thread e
ask-Phase (some v) (some t) s (with_thread u runs h w own e) = with_thread u runs h w own e

request_stop-Phase : (s : ApiServer) → Phase s → Phase (request_stop s)
unfolding request_stop
request_stop-Phase s p = ask-Phase s.server s.thread s p

release-Phase : (s : ApiServer) → is_running s ≡ false → Phase s → Phase (release s)
unfolding release
release-Phase s h (without_thread e) = without_thread e
release-Phase s h (with_thread t runs k v own e) = absurd (ground (arith, h, running s t runs k e))

ends-Phase : (t : ℕ) (s : ApiServer) → Phase s → Phase (ends t s)
unfolding ends
ends-Phase t s (without_thread e) = without_thread (rw e refl)
ends-Phase t s (with_thread u runs h v own e) = elim (Bool-cases (nat_eq u t)) [
  | inl same ↦ without_thread (rw (e, same) refl)
  | inr other ↦ with_thread u runs h v own (rw (e, other) refl)
]

run_server-Phase :
    (server : Option ℕ) (t : ℕ) (s : ApiServer)
    → server ≡ s.server
    → Phase s
    → Phase (run_server server t s)
run_server-Phase none t s h p = ends-Phase t s p
run_server-Phase (some v) t s h (without_thread e) = without_thread (rw e refl)
run_server-Phase (some v) t s h (with_thread u runs k w own e) = elim (Bool-cases (nat_eq u t)) [
  | inl same ↦ with_thread u (some v) k w (inr (h ∙ w)) (rw (e, same) refl)
  | inr other ↦ with_thread u runs k w own (rw (e, other) refl)
]

Step-Phase : {enabled : Bool} {s r : ApiServer} → ServerStep enabled false s r → Phase s → Phase r
unfolding begin_run
Step-Phase {enabled} {s} (starts free) p = start-Phase enabled s p
Step-Phase {enabled} {s} (asks free) p = request_stop-Phase s p
Step-Phase {enabled} {s} (releases held (inl over)) p = release-Phase s over p
Step-Phase {enabled} {s} (releases held (inr slow)) p = absurd (ground (arith, slow))
Step-Phase {enabled} {s} (begins t l) p = run_server-Phase s.server t s refl p
Step-Phase {enabled} {s} (thread_ends t l) p = ends-Phase t s p

Reach-Phase : {enabled : Bool} {s : ApiServer} → ServerReach enabled false s → Phase s
Reach-Phase server_made = without_thread refl
Reach-Phase (server_later r st) = Step-Phase st (Reach-Phase r)

-- While no join of a `stop` times out, at most one thread of the API is alive, whatever the order of
-- starts, stops and threads that begin and end; it runs no server but the one that was made with it; and
-- when `is_running` answers no, no thread is left.
pub server-IsSingle :
    {enabled : Bool} {s : ApiServer}
    → ServerReach enabled false s
    → (length s.live ≤ 1)
      × All (λ (u : ServerThread). (u.runs ≡ none) ⊎ (u.runs ≡ some u.id)) s.live
      × (is_running s ≡ false → s.live ≡ [])
server-IsSingle {enabled} {s} r = single s (Reach-Phase r)
  where
    single :
        (s : ApiServer)
        → Phase s
        → (length s.live ≤ 1)
          × All (λ (u : ServerThread). (u.runs ≡ none) ⊎ (u.runs ≡ some u.id)) s.live
          × (is_running s ≡ false → s.live ≡ [])
    single s (without_thread e) = (rw e (omega arith), rw e tt, λ h. e)
    single s (with_thread t runs h v own e) =
        (rw e (omega arith), rw e (own, tt), λ f. absurd (ground (arith, f, running s t runs h e)))

asked_holds :
    (server thread : Option ℕ) (s : ApiServer) (t v : ℕ)
    → server ≡ some v
    → thread ≡ some t
    → (ask server thread s).stopping ≡ true
asked_holds none thread s t v w h = absurd (ground (arith, w))
asked_holds (some v') none s t v w h = absurd (ground (arith, h))
asked_holds (some v') (some t') s t v w h = refl

asked_same :
    (server thread : Option ℕ) (s : ApiServer)
    → ((ask server thread s).live ≡ s.live) × ((ask server thread s).next ≡ s.next)
asked_same none thread s = (refl, refl)
asked_same (some v) none s = (refl, refl)
asked_same (some v) (some t) s = (refl, refl)

-- When the join of a `stop` times out, the next start makes a second server beside the first one.
pub slow_stop_doubles_server :
    {s : ApiServer} (t v : ℕ)
    → ServerReach true true s
    → s.thread ≡ some t
    → s.server ≡ some v
    → s.stopping ≡ false
    → (r : ApiServer) × ServerReach true true r
      × (r.live ≡ record { id = s.next; runs = none } ∷ s.live)
unfolding request_stop release start is_running
slow_stop_doubles_server {s} t v r h w free =
    let asked : ServerReach true true (request_stop s) = server_later r (asks free) in
    let held = asked_holds s.server s.thread s t v w h in
    let let_go : ServerReach true true (release (request_stop s)) =
      server_later asked (releases held (inr refl)) in
    let (live, next) = asked_same s.server s.thread s in
    (launch (release (request_stop s)), server_later let_go (starts refl), rw (live, next) refl)

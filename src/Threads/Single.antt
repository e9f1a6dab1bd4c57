-- ===== src/Threads/Single.antt =====
-- How many threads are in one loop.
use blackbear_edge_bridge.Prelude.{
  ℕ, ◌≤◌, ◌≡◌, ◌≢◌, ◌⊎◌, inl, inr, refl, Bool, true, false, none, some, [], ◌∷◌, nat_eq,
  nat_eq_refl, Bool-cases, length, arith, if◌then◌else◌,
}
use blackbear_edge_bridge.Threads.Loop.{
  Loop, is_alive, is_running, launch, start, stop, leave, Step, starts, stops, leaves, Reach, made,
  later,
}

-- what a reachable loop looks like
pub data Phase (l : Loop) : Type 0 where
  never_started : l.thread ≡ none → l.live ≡ [] → Phase l
  in_loop : (t : ℕ) → l.thread ≡ some t → l.live ≡ t ∷ [] → Phase l
  ended : l.live ≡ [] → l.stop_event ≡ true → Phase l

launched : (l : Loop) → l.live ≡ [] → Phase (launch l)
launched l none_live = in_loop l.next refl (rw none_live refl)

running : (l : Loop) (t : ℕ) → l.thread ≡ some t → l.live ≡ t ∷ [] → is_running l ≡ true
unfolding is_running is_alive
running l t h e = rw (h, e, nat_eq_refl t) refl

if_not :
    (l : Loop) (b : Bool) → Phase l → (l.live ≡ []) ⊎ (b ≡ true) → Phase (if b then l else launch l)
if_not l true p c = p
if_not l false p (inl e) = launched l e
if_not l false p (inr h) = absurd (ground (arith, h))

start-Phase : (enabled : Bool) (l : Loop) → Phase l → Phase (start enabled l)
unfolding start
start-Phase false l p = p
start-Phase true l (never_started h e) = if_not l (is_running l) (never_started h e) (inl e)
start-Phase true l (in_loop t h e) = if_not l (is_running l) (in_loop t h e) (inr (running l t h e))
start-Phase true l (ended e s) = if_not l (is_running l) (ended e s) (inl e)

stop-Phase : (l : Loop) → Phase l → Phase (stop l)
unfolding stop
stop-Phase l (never_started h e) = never_started h e
stop-Phase l (in_loop t h e) = in_loop t h e
stop-Phase l (ended e s) = ended e refl

leave-Phase : (t : ℕ) (l : Loop) → l.stop_event ≡ true → Phase l → Phase (leave t l)
unfolding leave
leave-Phase t l s (never_started h e) = never_started h (rw e refl)
leave-Phase t l s (ended e _) = ended (rw e refl) s
leave-Phase t l s (in_loop u h e) = elim (Bool-cases (nat_eq u t)) [
  | inl same ↦ ended (rw (e, same) refl) s
  | inr other ↦ in_loop u h (rw (e, other) refl)
]

pub Step-Phase : {enabled : Bool} {l m : Loop} → Step enabled l m → Phase l → Phase m
Step-Phase {enabled} {l} starts p = start-Phase enabled l p
Step-Phase {enabled} {l} stops p = stop-Phase l p
Step-Phase {enabled} {l} (leaves t _ s) p = leave-Phase t l s p

Reach-Phase : {enabled : Bool} {l : Loop} → Reach enabled l → Phase l
Reach-Phase made = never_started refl refl
Reach-Phase (later r st) = Step-Phase st (Reach-Phase r)

-- At most one thread is in the loop; and one that was started is in it until a stop is asked for.
abbrev pub IsSingle : Loop → Type 0
IsSingle l = (length l.live ≤ 1) × (l.thread ≢ none → l.stop_event ≡ false → is_running l ≡ true)

pub Phase-IsSingle : (l : Loop) → Phase l → IsSingle l
Phase-IsSingle l (never_started h e) = (rw e (omega arith), λ started s. absurd (started h))
Phase-IsSingle l (in_loop t h e) = (rw e (omega arith), λ started s. running l t h e)
Phase-IsSingle l (ended e s) = (rw e (omega arith), λ started f. absurd (ground (arith, s, f)))

-- Whatever the order of starts, stops and threads that leave, at most one thread of the readiness
-- monitor makes checks, and after a start it goes on until a stop is asked for.
pub Reach-IsSingle : {enabled : Bool} {l : Loop} → Reach enabled l → IsSingle l
Reach-IsSingle {enabled} {l} r = Phase-IsSingle l (Reach-Phase r)

-- ===== src/Threads/Cleanups.antt =====
-- `start`, `stop` and `_cleanup_loop` of app/sqlite_lifecycle.py, as far as they decide which threads
-- run. `start` takes no lock and does not ask whether a thread runs; an exception ends the loop.
use blackbear_edge_bridge.Prelude.{
  ℕ, ◌+◌, ◌≤◌, ◌≡◌, refl, Bool, List, [], ◌∷◌, true, false, not, length, arith, if◌then◌else◌,
}
use blackbear_edge_bridge.Errors.{Result, ok, raise}
use blackbear_edge_bridge.Threads.Loop.{Loop, initial, is_alive, launch, stop, leave, without}

-- what follows `reconcile_once`, unless that raises
unfoldable pub start_cleanups : Bool → Result (Unit {0}) → Loop → Loop
start_cleanups enabled (ok r) l = if not enabled then l else launch l
start_cleanups enabled (raise e) l = l

pub data CleanupStep (enabled : Bool) (l : Loop) : ℕ → Loop → Type 0 where
  cleanups_start :
      (reconciled : Result (Unit {0}))
      → CleanupStep enabled l 1 (start_cleanups enabled reconciled l)
  cleanups_stop : CleanupStep enabled l 0 (stop l)
  -- the event is set, or a cleanup raised
  cleanups_end : (t : ℕ) → is_alive t l.live ≡ true → CleanupStep enabled l 0 (leave t l)

-- with the number of starts
pub data CleanupReach (enabled : Bool) : ℕ → Loop → Type 0 where
  cleanups_made : CleanupReach enabled 0 initial
  cleanups_later :
      {n k : ℕ} {l m : Loop}
      → CleanupReach enabled n l
      → CleanupStep enabled l k m
      → CleanupReach enabled (n + k) m

start_adds :
    (enabled : Bool) (reconciled : Result (Unit {0})) (l : Loop)
    → length (start_cleanups enabled reconciled l).live ≤ length l.live + 1
unfolding start_cleanups
start_adds true (ok r) l = omega arith
start_adds false (ok r) l = omega arith
start_adds enabled (raise e) l = omega arith

start_disabled :
    (enabled : Bool) (reconciled : Result (Unit {0})) (l : Loop)
    → enabled ≡ false
    → length l.live ≡ 0
    → length (start_cleanups enabled reconciled l).live ≡ 0
unfolding start_cleanups
start_disabled true (ok r) l off e = absurd (ground (arith, off))
start_disabled false (ok r) l off e = e
start_disabled enabled (raise x) l off e = e

leave_removes : (t : ℕ) (l : Loop) → length (leave t l).live ≤ length l.live
unfolding leave
leave_removes t l = shorter l.live
  where
    shorter : (us : List ℕ) → length (without t us) ≤ length us
    shorter [] = omega arith
    shorter (u ∷ us) = ground (arith, shorter us)

stop_keeps : (l : Loop) → length (stop l).live ≡ length l.live
unfolding stop
stop_keeps l = refl

-- There are at most as many cleanup threads as starts; so there is one at most when `start` is called once,
-- and none when the cleanup is disabled.
pub cleanup_threads :
    {enabled : Bool} {n : ℕ} {l : Loop}
    → CleanupReach enabled n l
    → (length l.live ≤ n) × (enabled ≡ false → length l.live ≡ 0)
cleanup_threads cleanups_made = (omega arith, λ off. omega arith)
cleanup_threads (cleanups_later r st) = after st (cleanup_threads r)
  where
    after :
        {enabled : Bool} {n k : ℕ} {l m : Loop}
        → CleanupStep enabled l k m
        → (length l.live ≤ n) × (enabled ≡ false → length l.live ≡ 0)
        → (length m.live ≤ n + k) × (enabled ≡ false → length m.live ≡ 0)
    after (cleanups_start reconciled) (few, off) = (
      omega (arith, few, start_adds _ reconciled _),
      λ o. start_disabled _ reconciled _ o (off o),
    )
    after cleanups_stop (few, off) =
        (omega (arith, few, stop_keeps _), λ o. omega (arith, off o, stop_keeps _))
    after (cleanups_end t a) (few, off) =
        (omega (arith, few, leave_removes t _), λ o. omega (arith, off o, leave_removes t _))

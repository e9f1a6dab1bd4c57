-- ===== src/Worker/Pass.antt =====
-- The `for` loop of `run_once` in app/queue_worker.py: what it leaves of the records.
use mathlib.Core.Path.{subst}
use blackbear_edge_bridge.Prelude.{
  ℕ, suc, ◌≡◌, ◌⊎◌, ◌∙◌, refl, sym, ap, String, ◌≢◌, false, none, some, List, [], ◌∷◌, arith, inl,
  inr, nat_eq, All, All-map, length,
}
use blackbear_edge_bridge.Errors.{Result, ok, raise}
use blackbear_edge_bridge.Json.{Json, Codec}
use blackbear_edge_bridge.Queue.Message.{
  completed, failed, MessageRecord, Messages, get_message_by_id,
}
use blackbear_edge_bridge.Queue.WellFormed.{IsValid}
use blackbear_edge_bridge.Worker.Submission.{ChildRun}
use blackbear_edge_bridge.Worker.Process.{WorkerSettings, Bridge, process_record}
use blackbear_edge_bridge.Worker.Outcome.{attempt_ends}
use blackbear_edge_bridge.Worker.Settled.{Frames, process-Frames}
use blackbear_edge_bridge.Worker.Round.{Round, attempted_too, and_then, process_records}

-- The message is COMPLETED or FAILED.
abbrev pub IsSettled : Messages → ℕ → Type 0
IsSettled q i =
    (m : MessageRecord) × (get_message_by_id i q ≡ some m)
    × ((m.status ≡ completed) ⊎ (m.status ≡ failed))

abbrev pub IsStored : Messages → ℕ → Type 0
IsStored q i = (m : MessageRecord) × (get_message_by_id i q ≡ some m)

abbrev pub Apart : MessageRecord → MessageRecord → Type 0
Apart r s = nat_eq r.id s.id ≡ false

-- no two records have one id
abbrev pub AllApart : List MessageRecord → Type 0
AllApart [] = Unit
AllApart (r ∷ rs) = All (Apart r) rs × AllApart rs

module _ (codec : Codec) (settings : WorkerSettings) (submit : String × String → ChildRun)
    (round : Round) (goes_on : (k : ℕ) → round.stopped k ≡ false)
    (serializes : (response : Json) → codec.dumps response ≢ none) where
  abbrev pass : ℕ → List MessageRecord → Bridge → Result ℕ × Bridge
  pass = process_records codec settings submit round

  abbrev attempt : ℕ → MessageRecord → Bridge → Result (Unit {0}) × Bridge
  attempt k r b = process_record codec settings (round.clock k) submit r b

  pass_head :
      (k : ℕ) (r : MessageRecord) (rs : List MessageRecord) (b : Bridge)
      → pass k (r ∷ rs) b ≡ and_then codec settings submit (attempt k r b) (pass (suc k) rs)
  unfolding process_records
  pass_head k r rs b = rw (goes_on k) refl

  -- a pass that returns has returned from its first attempt and from the rest
  returned :
      (p : Result (Unit {0}) × Bridge) (rest : Bridge → Result ℕ × Bridge) (n : ℕ)
      → (and_then codec settings submit p rest).0 ≡ ok n
      → (p.0 ≡ ok tt)
        × ((m : ℕ) × ((rest p.1).0 ≡ ok m) × (n ≡ suc m))
        × ((and_then codec settings submit p rest).1 ≡ (rest p.1).1)
  returned (ok u, b) rest n h = of_rest (rest b) h
    where
      of_rest :
          (q : Result ℕ × Bridge)
          → (attempted_too codec settings submit q).0 ≡ ok n
          → (◌≡◌ {A = Result (Unit {0})} (ok u) (ok tt))
            × ((m : ℕ) × (q.0 ≡ ok m) × (n ≡ suc m))
            × ((attempted_too codec settings submit q).1 ≡ q.1)
      of_rest (ok m, b') h = (refl, (m, refl, cc), refl)
      of_rest (raise e, b') h = cc
  returned (raise e, b) rest n h = cc

  -- an attempt that returns, and a rest that returns, make a pass that returns
  attempted :
      (p : Result (Unit {0}) × Bridge) (rest : Bridge → Result ℕ × Bridge) (n : ℕ)
      → p.0 ≡ ok tt
      → (rest p.1).0 ≡ ok n
      → ((and_then codec settings submit p rest).0 ≡ ok (suc n))
        × ((and_then codec settings submit p rest).1 ≡ (rest p.1).1)
  attempted (ok u, b) rest n e h = of_rest (rest b) h
    where
      of_rest :
          (q : Result ℕ × Bridge)
          → q.0 ≡ ok n
          → ((attempted_too codec settings submit q).0 ≡ ok (suc n))
            × ((attempted_too codec settings submit q).1 ≡ q.1)
      of_rest (ok m, b') h = (cc, refl)
      of_rest (raise x, b') h = absurd (ground (arith, h))
  attempted (raise x, b) rest n e h = absurd (ground (arith, e))

  -- an attempt returns and settles its message
  attempt_settles :
      (k : ℕ) (r : MessageRecord) (b : Bridge)
      → IsValid b.database.messages
      → IsStored b.database.messages r.id
      → ((attempt k r b).0 ≡ ok tt) × IsSettled (attempt k r b).1.database.messages r.id
  attempt_settles k r b v (stored, found) =
      elim (attempt_ends codec settings (round.clock k) submit r stored b v found) [
        | inl (o, a, c, (m, row, s)) ↦ (o, (m, row, inr s))
        | inr (inl (_, _, _, _, (o, a, c, (m, row, s)), _)) ↦ (o, (m, row, inl s))
        | inr (inr (e, d, a, (response, _, t))) ↦ absurd (serializes response t)
      ]

  -- a pass keeps the rows of other messages
  pass_keeps :
      (k i n : ℕ) (rs : List MessageRecord) (b : Bridge)
      → IsValid b.database.messages
      → All (λ s. nat_eq s.id i ≡ false) rs
      → (pass k rs b).0 ≡ ok n
      → get_message_by_id i (pass k rs b).1.database.messages
        ≡ get_message_by_id i b.database.messages
  unfolding process_records
  pass_keeps k i n [] b v apart h = refl
  pass_keeps k i n (r ∷ rs) b v apart h =
      let p = attempt k r b in
      let frames = process-Frames codec settings (round.clock k) submit r b v in
      let (o, (m, rest, e), same) = returned p (pass (suc k) rs) n (rw (pass_head k r rs b) at h) in
      ap (λ s. get_message_by_id i s.database.messages) (ap (λ q. q.1) (pass_head k r rs b) ∙ same)
      ∙ pass_keeps (suc k) i m rs p.1 frames.is_valid apart.1 rest
      ∙ frames.keeps i apart.0

  still-IsStored :
      (r : MessageRecord) (q q' : Messages) (rs : List MessageRecord)
      → Frames r.id q q'
      → All (Apart r) rs
      → All (λ s. IsStored q s.id) rs
      → All (λ s. IsStored q' s.id) rs
  still-IsStored r q q' [] f a h = tt
  still-IsStored r q q' (s ∷ rs) f a h =
      let (m, found) = h.0 in ((m, f.keeps s.id a.0 ∙ found), still-IsStored r q q' rs f a.1 h.1)

  -- When every response serializes, a pass that is not stopped, over records of distinct ids that stand in a
  -- well-formed table, returns, has attempted all of them, and leaves each COMPLETED or FAILED.
  pub pass_settles :
      (k : ℕ) (rs : List MessageRecord) (b : Bridge)
      → IsValid b.database.messages
      → AllApart rs
      → All (λ r. IsStored b.database.messages r.id) rs
      → ((process_records codec settings submit round k rs b).0 ≡ ok (length rs))
        × All
            (λ r.
              IsSettled
                (process_records codec settings submit round k rs b).1.database.messages
                r.id)
            rs
  unfolding process_records
  pass_settles k [] b v apart stored = (refl, tt)
  pass_settles k (r ∷ rs) b v apart stored =
      let p = attempt k r b in
      let frames = process-Frames codec settings (round.clock k) submit r b v in
      let (o, (row, found, status)) = attempt_settles k r b v stored.0 in
      let left =
        still-IsStored r b.database.messages p.1.database.messages rs frames apart.0 stored.1 in
      let (rest, settled) = pass_settles (suc k) rs p.1 frames.is_valid apart.1 left in
      let (result, same) = attempted p (pass (suc k) rs) (length rs) o rest in
      let head = pass_head k r rs b in
      let after : (pass k (r ∷ rs) b).1 ≡ (pass (suc k) rs p.1).1 = ap (λ q. q.1) head ∙ same in
      let symmetric = All-map (λ s a. flipped r.id s.id a) rs apart.0 in
      let kept = pass_keeps (suc k) r.id (length rs) rs p.1 frames.is_valid symmetric rest in
      let at_end = λ (x : Bridge). All (λ s. IsSettled x.database.messages s.id) (r ∷ rs) in
      (ap (λ q. q.0) head ∙ result, subst at_end (sym after) ((row, kept ∙ found, status), settled))
    where
      flipped : (i j : ℕ) → nat_eq i j ≡ false → nat_eq j i ≡ false
      flipped i j h = ground (arith, h)

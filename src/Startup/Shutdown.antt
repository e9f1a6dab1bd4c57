-- ===== src/Startup/Shutdown.antt =====
-- Which parts `main` of app/main.py stops.
use blackbear_edge_bridge.Prelude.{
  ◌≡◌, ◌⊎◌, inl, inr, ◌∙◌, refl, sym, ap, Bool, true, false, ◌||◌, Option, none, some, List, [],
  ◌∷◌, ◌++◌, All, arith,
}
use blackbear_edge_bridge.Odoo.Client.{OdooClientSettings}
use blackbear_edge_bridge.Startup.Config.{AppConfig}
use blackbear_edge_bridge.Startup.Parts.{
  OdooWorker, create_odoo_worker, create_readiness_monitor, Part, sqlite_lifecycle, worker,
  mqtt_client, readiness_monitor, api_server, Call, starts, stops, perform, before_try, in_try,
  in_finally, main,
}

abbrev pub same_part : Part → Part → Bool
same_part sqlite_lifecycle sqlite_lifecycle = true
same_part worker worker = true
same_part mqtt_client mqtt_client = true
same_part readiness_monitor readiness_monitor = true
same_part api_server api_server = true
same_part _ _ = false

abbrev pub is_start : Part → Call → Bool
is_start p (starts q) = same_part p q
is_start p _ = false

abbrev pub is_stop : Part → Call → Bool
is_stop p (stops q) = same_part p q
is_stop p _ = false

abbrev pub any : (Call → Bool) → List Call → Bool
any f [] = false
any f (c ∷ cs) = f c || any f cs

-- none of the calls raises
abbrev pub Returns : (Call → Bool) → List Call → Type 0
Returns raises = All (λ c. raises c ≡ false)

any-append : (f : Call → Bool) (xs ys : List Call) → any f (xs ++ ys) ≡ (any f xs || any f ys)
any-append f [] ys = refl
any-append f (x ∷ xs) ys = ground (arith, any-append f xs ys)

any-perform :
    (f raises : Call → Bool) (cs : List Call)
    → any f cs ≡ false
    → any f (perform raises cs).0 ≡ false
unfolding perform
any-perform f raises [] h = refl
any-perform f raises (c ∷ cs) h = ground (arith, h, any-perform f raises cs)

perform-Returns :
    (raises : Call → Bool) (cs : List Call) → Returns raises cs → perform raises cs ≡ (cs, false)
unfolding perform
perform-Returns raises [] h = refl
perform-Returns raises (c ∷ cs) (h, hs) = rw (h, perform-Returns raises cs hs) refl

abbrev whole : (Call → Bool) → Option OdooWorker → Option OdooClientSettings → List Call
whole raises w r = before_try w ++ ((perform raises in_try).0 ++ in_finally w r)

main-whole :
    (config : AppConfig) (raises : Call → Bool)
    → Returns raises (before_try (create_odoo_worker config true))
    → Returns raises
        (in_finally (create_odoo_worker config true) (create_readiness_monitor config).client)
    → main config raises
      ≡ whole raises (create_odoo_worker config true) (create_readiness_monitor config).client
unfolding main
main-whole config raises b f =
    let w = create_odoo_worker config true in
    let client = (create_readiness_monitor config).client in
    rw (perform-Returns raises (before_try w) b, perform-Returns raises (in_finally w client) f)
      refl

or_right : (a b c : Bool) → c ≡ true → (a || (b || c)) ≡ true
or_right a b c h = ground (arith, h)

any-whole :
    (f raises : Call → Bool) (w : Option OdooWorker) (r : Option OdooClientSettings)
    → any f (whole raises w r)
      ≡ (any f (before_try w) || (any f (perform raises in_try).0 || any f (in_finally w r)))
any-whole f raises w r =
    any-append f (before_try w) ((perform raises in_try).0 ++ in_finally w r)
    ∙ ap (λ b. any f (before_try w) || b) (any-append f (perform raises in_try).0 (in_finally w r))

-- the worker is stopped when there is one, and the other parts always
finally_stops :
    (w : Option OdooWorker) (r : Option OdooClientSettings) (p : Part)
    → (any (is_stop p) (in_finally w r) ≡ true) ⊎ ((p ≡ worker) × (w ≡ none))
finally_stops w r sqlite_lifecycle = inl refl
finally_stops none r worker = inr (refl, refl)
finally_stops (some o) r worker = inl refl
finally_stops none r mqtt_client = inl refl
finally_stops (some o) r mqtt_client = inl refl
finally_stops w r readiness_monitor = inl refl
finally_stops w r api_server = inl refl

no_worker_starts :
    (raises : Call → Bool) (r : Option OdooClientSettings)
    → any (is_start worker) (whole raises none r) ≡ false
no_worker_starts raises r =
    any-whole (is_start worker) raises none r
    ∙ rw (any-perform (is_start worker) raises in_try refl) (in_closing r)
  where
    in_closing : (r : Option OdooClientSettings) → any (is_start worker) (in_finally none r) ≡ false
    in_closing none = refl
    in_closing (some c) = refl

whole_stops :
    (raises : Call → Bool) (w : Option OdooWorker) (r : Option OdooClientSettings) (p : Part)
    → any (is_start p) (whole raises w r) ≡ true
    → any (is_stop p) (whole raises w r) ≡ true
whole_stops raises w r p h = elim (finally_stops w r p) [
  | inl stop ↦ any-whole (is_stop p) raises w r ∙ or_right _ _ _ stop
  | inr (is_worker, nobody) ↦ absurd (not_started p w is_worker nobody h)
]
  where
    not_started :
        (p : Part) (w : Option OdooWorker)
        → p ≡ worker
        → w ≡ none
        → any (is_start p) (whole raises w r) ≡ true
        → ⊥
    not_started p w e n k = ground (
      arith,
      no_worker_starts raises r,
      sym (ap (λ q. any (is_start q) (whole raises w r)) e) ∙ k,
      ap (λ v. any (is_start worker) (whole raises v r)) n,
    )

-- When nothing raises before the `try` and no call of the `finally` raises, every part that `main` starts
-- is stopped, whatever raises in between.
pub started_is_stopped :
    (config : AppConfig) (raises : Call → Bool) (p : Part)
    → Returns raises (before_try (create_odoo_worker config true))
    → Returns raises
        (in_finally (create_odoo_worker config true) (create_readiness_monitor config).client)
    → any (is_start p) (main config raises) ≡ true
    → any (is_stop p) (main config raises) ≡ true
started_is_stopped config raises p b f h =
    let e = main-whole config raises b f in
    let w = create_odoo_worker config true in
    let client = (create_readiness_monitor config).client in
    ap (any (is_stop p)) e ∙ whole_stops raises w client p (sym (ap (any (is_start p)) e) ∙ h)

cut_short :
    (config : AppConfig) (raises : Call → Bool)
    → (perform raises (before_try (create_odoo_worker config true))).1 ≡ true
    → main config raises ≡ (perform raises (before_try (create_odoo_worker config true))).0
unfolding main
cut_short config raises h = rw h refl

before_mqtt : (w : Option OdooWorker) → any (is_start mqtt_client) (before_try w) ≡ false
before_mqtt none = refl
before_mqtt (some o) = refl

before_stops : (p : Part) (w : Option OdooWorker) → any (is_stop p) (before_try w) ≡ false
before_stops p none = refl
before_stops p (some o) = refl

-- When a call before the `try` raises, nothing after it is called: no message is received and nothing is
-- stopped.
pub failed_start :
    (config : AppConfig) (raises : Call → Bool)
    → (perform raises (before_try (create_odoo_worker config true))).1 ≡ true
    → (any (is_start mqtt_client) (main config raises) ≡ false)
      × ((p : Part) → any (is_stop p) (main config raises) ≡ false)
failed_start config raises h =
    let w = create_odoo_worker config true in
    let e = cut_short config raises h in
    (
      ap (any (is_start mqtt_client)) e
          ∙ any-perform (is_start mqtt_client) raises (before_try w) (before_mqtt w),
      λ p.
          ap (any (is_stop p)) e ∙ any-perform (is_stop p) raises (before_try w) (before_stops p w),
    )

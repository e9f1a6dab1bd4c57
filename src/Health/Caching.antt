-- ===== src/Health/Caching.antt =====
-- How old the database status of the health endpoint (app/api.py) may be.
use blackbear_edge_bridge.Prelude.{
  ℕ, ◌+◌, ◌<◌, ◌≡◌, ◌⊎◌, refl, Bool, true, false, Option, none, some, List, [], ◌∷◌, ℤ, arith, ltb,
  inl, inr, if◌then◌else◌,
}
use blackbear_edge_bridge.Health.Status.{
  DatabaseStatus, HealthCache, empty_cache, cache_time, cached_value, HealthRead, fresh_status,
  answer_or_read, database_health,
}

module _ (retention_days : ℤ) (cleanup_enabled : Bool) where
  -- the cache after the reads, latest first
  abbrev pub cache_after : List HealthRead → HealthCache
  cache_after [] = empty_cache
  cache_after (r ∷ seen) = (database_health retention_days cleanup_enabled r (cache_after seen)).1

  -- what an earlier read found, when it expires
  abbrev Known : List HealthRead → ℕ → DatabaseStatus → Type 0
  Known [] expires_at v = ⊥
  Known (r ∷ seen) expires_at v =
      ((v ≡ fresh_status retention_days cleanup_enabled r)
        × (expires_at ≡ r.stored_at + cache_time))
      ⊎ Known seen expires_at v

  -- the status that an earlier read found, less than the cache time before
  abbrev pub Recent : List HealthRead → ℕ → DatabaseStatus → Type 0
  Recent [] now v = ⊥
  Recent (r ∷ seen) now v =
      ((v ≡ fresh_status retention_days cleanup_enabled r) × (now < r.stored_at + cache_time))
      ⊎ Recent seen now v

  cache-Known :
      (seen : List HealthRead)
      → ((cache_after seen).value ≡ none)
        ⊎ ((v : DatabaseStatus) × ((cache_after seen).value ≡ some v)
            × Known seen (cache_after seen).expires_at v)
  unfolding database_health
  cache-Known [] = inl refl
  cache-Known (r ∷ seen) =
      by_value (cached_value (cache_after seen).value (cache_after seen).expires_at r.now)
        (cache-Known seen)
    where
      by_value :
          (o : Option DatabaseStatus)
          → (((cache_after seen).value ≡ none)
              ⊎ ((v : DatabaseStatus) × ((cache_after seen).value ≡ some v)
                  × Known seen (cache_after seen).expires_at v))
          → let cache = (answer_or_read retention_days cleanup_enabled r o (cache_after seen)).1 in
            (cache.value ≡ none)
            ⊎ ((v : DatabaseStatus) × (cache.value ≡ some v) × Known (r ∷ seen) cache.expires_at v)
      by_value none k = inr (fresh_status retention_days cleanup_enabled r, refl, inl (refl, refl))
      by_value (some w) (inl e) = inl e
      by_value (some w) (inr (v, e, k)) = inr (v, e, inr k)

  Known-Recent :
      (seen : List HealthRead) (expires_at now : ℕ) (v : DatabaseStatus)
      → now < expires_at
      → Known seen expires_at v
      → Recent seen now v
  Known-Recent [] e now v h k = k
  Known-Recent (r ∷ seen) e now v h (inl (s, t)) = inl (s, omega (arith, h, t))
  Known-Recent (r ∷ seen) e now v h (inr k) = inr (Known-Recent seen e now v h k)

  -- Whatever the endpoint was asked before, its database status is read at this call, or was read at an
  -- earlier one and stored less than 30 seconds ago.
  pub database_health-Recent :
      (seen : List HealthRead) (r : HealthRead)
      → let answer = (database_health retention_days cleanup_enabled r (cache_after seen)).0 in
        (answer ≡ fresh_status retention_days cleanup_enabled r) ⊎ Recent seen r.now answer
  unfolding database_health
  database_health-Recent seen r = by_cache (cache_after seen).value refl (cache-Known seen)
    where
      by_time :
          (v : DatabaseStatus) (b : Bool)
          → ltb r.now (cache_after seen).expires_at ≡ b
          → Known seen (cache_after seen).expires_at v
          → let o = if b then some v else none in
            let answer = (answer_or_read retention_days cleanup_enabled r o (cache_after seen)).0 in
            (answer ≡ fresh_status retention_days cleanup_enabled r) ⊎ Recent seen r.now answer
      by_time v true t k =
          inr (Known-Recent seen (cache_after seen).expires_at r.now v (ground (arith, t)) k)
      by_time v false t k = inl refl

      by_cache :
          (o : Option DatabaseStatus)
          → (cache_after seen).value ≡ o
          → (((cache_after seen).value ≡ none)
              ⊎ ((v : DatabaseStatus) × ((cache_after seen).value ≡ some v)
                  × Known seen (cache_after seen).expires_at v))
          → let cached =
              cached_value (cache_after seen).value (cache_after seen).expires_at r.now in
            let answer =
              (answer_or_read retention_days cleanup_enabled r cached (cache_after seen)).0 in
            (answer ≡ fresh_status retention_days cleanup_enabled r) ⊎ Recent seen r.now answer
      by_cache o e (inl n) = rw n (inl refl)
      by_cache o e (inr (v, s, k)) =
          rw s (by_time v (ltb r.now (cache_after seen).expires_at) refl k)

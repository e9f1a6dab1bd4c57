-- ===== src/Api/Guarded.antt =====
-- Who reaches the routes of app/api.py.
use blackbear_edge_bridge.Prelude.{
  ◌≡◌, ◌≢◌, ◌⊎◌, inl, inr, ◌∙◌, refl, ap, String, Bool, true, false, Option, none, some, Bool-cases,
  eq_iff, ◌==◌, arith,
}
use blackbear_edge_bridge.Errors.{Checked, accept, reject}
use blackbear_edge_bridge.Api.Call.{ApiContext}
use blackbear_edge_bridge.Dashboard.Query.{Dates}
use blackbear_edge_bridge.Api.Routes.{
  Credentials, AuthError, unauthorized, not_ascii, is_ascii, compare_digest, compared, authenticate,
  Route, Service, refused, handle, admitted, serve,
}

-- The two texts as `secrets.compare_digest` reads them.
abbrev pub IsAscii : Credentials → Type 0
IsAscii c = (is_ascii c.username ≡ true) × (is_ascii c.password ≡ true)

compare_digest-ascii :
    (a b : String) → is_ascii a ≡ true → is_ascii b ≡ true → compare_digest a b ≡ accept (a == b)
unfolding compare_digest
compare_digest-ascii a b ha hb = rw (ha, hb) refl

compare_digest-accepts :
    (a b : String) → compare_digest a b ≡ accept true → (a ≡ b) × (is_ascii a ≡ true)
unfolding compare_digest
compare_digest-accepts a b h = ground (arith, eq_iff a b)

pair_eq : (c d : Credentials) → c.username ≡ d.username → c.password ≡ d.password → c ≡ d
pair_eq c d h k i = record { username = h i; password = k i }

differ : (a b : String) → (a == b) ≡ false → a ≢ b
differ a b f e = ground (arith, f, e, eq_iff a b)

compared-accepts :
    (configured given : Credentials) (m n : Checked AuthError Bool) (u : String)
    → compared configured given m n ≡ accept u
    → (m ≡ accept true) × (n ≡ accept true) × (u ≡ given.username)
compared-accepts configured given (accept true) (accept true) u h = (refl, refl, cc)
compared-accepts configured given (accept true) (accept false) u h = absurd (ground (arith, h))
compared-accepts configured given (accept false) (accept p) u h = absurd (ground (arith, h))
compared-accepts configured given (accept m) (reject e) u h = absurd (ground (arith, h))
compared-accepts configured given (reject e) n u h = absurd (ground (arith, h))

-- With an ASCII user name and password configured and given, the authentication accepts the configured
-- pair, under its name, and refuses every other with 401.
pub authenticate-exact :
    (configured given : Credentials)
    → IsAscii configured
    → IsAscii given
    → ((authenticate configured (some given) ≡ accept given.username) × (given ≡ configured))
      ⊎ ((authenticate configured (some given) ≡ reject unauthorized) × (given ≢ configured))
unfolding authenticate
authenticate-exact configured given hc hg =
    rw
      (
        compare_digest-ascii given.username configured.username hg.0 hc.0,
        compare_digest-ascii given.password configured.password hg.1 hc.1,
      )
      (elim (Bool-cases (given.username == configured.username)) [
        | inr f ↦ rw f (
            inr (
              refl,
              λ e.
                  differ given.username configured.username f
                    (ap (λ (c : Credentials). c.username) e),
            ))
        | inl t ↦ elim (Bool-cases (given.password == configured.password)) [
          | inr f ↦
              rw (t, f)
                (inr (
                  refl,
                  λ e.
                      differ given.password configured.password f
                        (ap (λ (c : Credentials). c.password) e),
                ))
          | inl u ↦
              rw (t, u)
                (inl (
                  refl,
                  pair_eq given configured ((eq_iff given.username configured.username).0 t)
                      ((eq_iff given.password configured.password).0 u),
                ))
        ]
      ])

-- No other credentials are accepted, whatever is configured.
accepted-configured :
    (configured : Credentials) (given : Option Credentials) (u : String)
    → authenticate configured given ≡ accept u
    → (given ≡ some configured) × (u ≡ configured.username)
unfolding authenticate
accepted-configured configured none u h = absurd (ground (arith, h))
accepted-configured configured (some given) u h =
    let (m, n, e) =
      compared-accepts configured given (compare_digest given.username configured.username)
        (compare_digest given.password configured.password) u h in
    let name = (compare_digest-accepts given.username configured.username m).0 in
    let password = (compare_digest-accepts given.password configured.password n).0 in
    (ap some (pair_eq given configured name password), e ∙ name)

-- A route's handler runs only for the configured user name and password, and then under that name; any
-- other request to it leaves the database, the audit table and the published commands as they are,
-- and is answered by the refusal alone.
pub serve-Guarded :
    (x : ApiContext) (dates : Dates) (configured : Credentials) (given : Option Credentials)
    (route : Route) (s : Service)
    → ((given ≡ some configured)
        × (serve x dates configured given route s ≡ handle x dates configured.username route s))
      ⊎ ((e : AuthError) × (serve x dates configured given route s ≡ (refused e, s)))
unfolding serve
serve-Guarded x dates configured given route s = by_outcome (authenticate configured given) refl
  where
    by_outcome :
        (m : Checked AuthError String)
        → authenticate configured given ≡ m
        → ((given ≡ some configured)
            × (admitted x dates (authenticate configured given) route s
                ≡ handle x dates configured.username route s))
          ⊎ ((e : AuthError) × (admitted x dates (authenticate configured given) route s
                ≡ (refused e, s)))
    by_outcome (reject e) h = inr (e, rw h refl)
    by_outcome (accept u) h =
        let (pair, name) = accepted-configured configured given u h in inl (pair, rw (h, name) refl)

-- A configured password with a character outside ASCII refuses every request, the right one included,
-- with the TypeError of `compare_digest`.
pub non_ascii_password_refuses :
    (configured given : Credentials)
    → is_ascii configured.password ≡ false
    → authenticate configured (some given) ≡ reject not_ascii
unfolding authenticate compare_digest
non_ascii_password_refuses configured given h = ground (arith, h)

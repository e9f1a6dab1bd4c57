-- ===== src/Startup/Loaded.antt =====
-- `load_config` of app/config.py against the list of the variables that it reads.
use blackbear_edge_bridge.Prelude.{◌≡◌, refl, String, Bool, Option, none, some, List, ◌∷◌, ℤ}
use blackbear_edge_bridge.Errors.{Checked, accept, reject, ◌>>=◌}
use blackbear_edge_bridge.Startup.Read.{ConfigError, Letters, Environment, get_int, get_bool}
use blackbear_edge_bridge.Startup.Config.{AppConfig, load_config}
use blackbear_edge_bridge.Startup.Load.{
  Variable, integer, boolean, Value, number, flag, variables, values_of, texts_of, named, or_reject,
  read_all, texts, get_int-eq, get_bool-eq, then_rest,
}

-- what a configuration holds: the values and the texts
abbrev pub outline : Checked ConfigError AppConfig → Checked ConfigError (List Value × List String)
outline (accept c) = accept (values_of c, texts_of c)
outline (reject e) = reject e

-- values together with texts
abbrev pub with_texts :
    List String → Checked ConfigError (List Value) → Checked ConfigError (List Value × List String)
with_texts ts (accept values) = accept (values, ts)
with_texts ts (reject e) = reject e

module _ (letters : Letters) (env : Environment) where
  abbrev finish :
      (List Value → List Value × List String)
      → Checked ConfigError (List Value)
      → Checked ConfigError (List Value × List String)
  finish d (accept values) = accept (d values)
  finish d (reject e) = reject e

  -- the rest of the load gives what the values of the rest of the variables make
  record Follows (d : List Value → List Value × List String) (vs : List Variable)
      (m : Checked ConfigError AppConfig) : Type 0 where
    agrees : outline m ≡ finish d (read_all letters env vs)

  then-Follows :
      {A : Type 0} (value : A → Value) (o : Option A) (e : ConfigError)
      (d : List Value → List Value × List String) {vs : List Variable}
      {f : A → Checked ConfigError AppConfig}
      → ((a : A) → Follows (λ xs. d (value a ∷ xs)) vs (f a))
      → outline (or_reject e o >>= f)
        ≡ finish d (then_rest e (named value o) (read_all letters env vs))
  then-Follows value none e d k = refl
  then-Follows value (some a) e d {vs} {f} k = by_rest (read_all letters env vs) (k a).agrees
    where
      by_rest :
          (r : Checked ConfigError (List Value))
          → outline (f a) ≡ finish (λ xs. d (value a ∷ xs)) r
          → outline (f a) ≡ finish d (then_rest e (some (value a)) r)
      by_rest (accept values) h = h
      by_rest (reject e') h = h

  int_then :
      {name : String} {default : ℤ} {d : List Value → List Value × List String} {vs : List Variable}
      {f : ℤ → Checked ConfigError AppConfig}
      → ((n : ℤ) → Follows (λ xs. d (number n ∷ xs)) vs (f n))
      → Follows d (integer name default ∷ vs) (get_int letters env name default >>= f)
  unfolding read_all
  int_then {name} {default} k = record {
    agrees = rw (get_int-eq letters env name default) (then-Follows number _ _ _ k);
  }

  bool_then :
      {name : String} {default : Bool} {d : List Value → List Value × List String}
      {vs : List Variable} {f : Bool → Checked ConfigError AppConfig}
      → ((b : Bool) → Follows (λ xs. d (flag b ∷ xs)) vs (f b))
      → Follows d (boolean name default ∷ vs) (get_bool letters env name default >>= f)
  unfolding read_all
  bool_then {name} {default} k = record {
    agrees = rw (get_bool-eq letters env name default) (then-Follows flag _ _ _ k);
  }

  load_config-Follows :
      Follows (λ values. (values, texts letters env)) variables (load_config letters env)
  unfolding load_config read_all
  load_config-Follows = int_then λ _. int_then λ _. bool_then λ _. int_then λ _. int_then λ _.
      int_then λ _. int_then λ _. int_then λ _. int_then λ _. bool_then λ _. int_then λ _.
        int_then λ _. int_then λ _. int_then λ _. bool_then λ _. bool_then λ _. int_then λ _.
          int_then λ _. int_then λ _. int_then λ _. int_then λ _. int_then λ _.
            bool_then
              λ _. int_then λ _. int_then λ _. bool_then λ _. int_then λ _. record { agrees = refl }

  -- The configuration that is loaded is the one that its specification gives. Each integer and each
  -- Boolean variable that is unset or blank has its default, and otherwise the integer that its text reads
  -- as, or what its word means: true, 1, yes and on, or false, 0, no and off, in any case. The first
  -- variable, in the order of the list, whose text is neither ends the load with the error that names it.
  -- The texts are those of the environment, or their defaults.
  pub load_config-exact :
      outline (load_config letters env)
      ≡ with_texts (texts letters env) (read_all letters env variables)
  load_config-exact = by_values (read_all letters env variables) load_config-Follows.agrees
    where
      by_values :
          (r : Checked ConfigError (List Value))
          → outline (load_config letters env) ≡ finish (λ values. (values, texts letters env)) r
          → outline (load_config letters env) ≡ with_texts (texts letters env) r
      by_values (accept values) h = h
      by_values (reject e) h = h

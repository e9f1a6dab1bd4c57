-- ===== src/Json.antt =====
-- JSON values as Python's json.loads gives them. A dict is the list of its entries, with no key twice.
-- The decoder and the encoder of the json module stand in `Codec`, which their users are given.
use blackbear_edge_bridge.Prelude.{String, Bool, Option, none, some, ◌==◌, if◌then◌else◌, ℤ}
use blackbear_edge_bridge.Errors.{Checked}

mutual
  pub data Json : Type 0 where
    null : Json
    bool : Bool → Json
    int : ℤ → Json
    -- the text of the number
    float : String → Json
    str : String → Json
    arr : Items → Json
    obj : Fields → Json

  pub data Items : Type 0 where
    nil : Items
    cons : Json → Items → Items

  pub data Fields : Type 0 where
    end : Fields
    field : String → Json → Fields → Fields

-- dict.get
abbrev pub get : String → Fields → Option Json
get k end = none
get k (field j v fs) = if j == k then some v else get k fs

-- json.loads: the value, or the message of JSONDecodeError; json.dumps with the default separators,
-- `none` where it raises TypeError.
pub record Codec : Type 0 where
  pub loads : String → Checked String Json
  pub dumps : Json → Option String

-- ===== src/Metrics/Json.antt =====
-- The values of a parsed JSON text, as `json.loads` gives them to Python, with the tests that
-- spark/utils/metrics_listener.py makes of them. Offsets are whole numbers, so there is no float.
use payments_cdc_pipeline.Prelude.{
  ℕ, suc, String, Bool, true, false, Option, none, some, text_eq, not, ◌==◌, if◌then◌else◌,
}
use payments_cdc_pipeline.Prelude.Int.{ℤ, pos, negsuc}

mutual
  pub data Json : Type 0 where
    null : Json
    bool : Bool → Json
    num : ℤ → Json
    str : String → Json
    arr : Items → Json
    obj : Fields → Json

  pub data Items : Type 0 where
    nil : Items
    cons : Json → Items → Items

  pub data Fields : Type 0 where
    end : Fields
    field : String → Json → Fields → Fields

-- `d.get(k)`, without the default
abbrev pub get : String → Fields → Option Json
get k end = none
get k (field j v fs) = if text_eq j k then some v else get k fs

abbrev pub size : Fields → ℕ
size end = 0
size (field j v fs) = suc (size fs)

-- `bool(v)`
abbrev pub truthy : Json → Bool
truthy null = false
truthy (bool b) = b
truthy (num (pos n)) = not (n == 0)
truthy (num (negsuc n)) = true
truthy (str s) = not (text_eq s "")
truthy (arr nil) = false
truthy (arr (cons v vs)) = true
truthy (obj end) = false
truthy (obj (field k v fs)) = true

-- `d.get(k)`, where a missing key gives `None`
abbrev pub get_or_null : String → Fields → Json
get_or_null k fs = elim (get k fs) [ none ↦ null | some v ↦ v ]

-- `a or b`
abbrev pub or_else : Json → Json → Json
or_else a b = if truthy a then a else b

-- `d[k] = v`
abbrev pub set : String → Json → Fields → Fields
set k v end = field k v end
set k v (field j u fs) =
    let rest = set k v fs in if text_eq j k then field j v fs else field j u rest

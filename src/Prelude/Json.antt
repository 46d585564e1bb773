-- ===== src/Prelude/Json.antt =====
-- The values of a decoded JSON document, as far as the program reads them: an integer of such a
-- document is a natural number here, and a document has no floats.
use Prim.Native.String.{String}
use shiroe.Prelude.Tests.{if◌then◌else◌, eqb}
use shiroe.Prelude.Equality.{◌==◌, string_eq}
use Prim.Native.Nat.{ℕ}
use mathlib.Core.Bool.{Bool, true, false, not}
use mathlib.Core.Option.{Option, none, some}

mutual
  pub data Json : Type 0 where
    null : Json
    bool : Bool → Json
    num : ℕ → Json
    str : String → Json
    arr : Items → Json
    obj : Fields → Json

  pub data Items : Type 0 where
    nil : Items
    cons : Json → Items → Items

  -- a Python dict with text keys
  pub data Fields : Type 0 where
    end : Fields
    field : String → Json → Fields → Fields

-- `d.get(key)`
unfoldable pub get_field : String → Fields → Option Json
get_field key end = none
get_field key (field k v rest) = if k == key then some v else get_field key rest

-- `bool(value)`
unfoldable pub truthy : Json → Bool
truthy null = false
truthy (bool b) = b
truthy (num n) = not (eqb n 0)
truthy (str s) = not (s == "")
truthy (arr nil) = false
truthy (arr (cons x xs)) = true
truthy (obj end) = false
truthy (obj (field k v rest)) = true

-- `bool(d.get(key))`
unfoldable pub field_truthy : String → Fields → Bool
unfolding get_field truthy
field_truthy key fields = elim (get_field key fields) [ none ↦ false | some v ↦ truthy v ]

-- `key in d`
unfoldable pub has_field : String → Fields → Bool
unfolding get_field
has_field key fields = elim (get_field key fields) [ none ↦ false | some v ↦ true ]

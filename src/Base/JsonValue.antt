-- ===== src/Base/JsonValue.antt =====
-- The values of JSON, of TOML and of a parameter of type `unknown`; a property is looked up by name.
use Prim.Native.Nat.{ℕ}
use mathlib.Core.Bool.{Bool}
use mathlib.Core.Option.{Option, none, some}
use thinklocal_mcp.Base.Tests.{if◌then◌else◌}
use thinklocal_mcp.Base.Text.{Text, text_eq}

mutual
  pub data Value : Type 0 where
    null : Value
    flag : Bool → Value
    number : ℕ → Value
    text : Text → Value
    array : Values → Value
    object : Fields → Value

  pub data Values : Type 0 where
    nil : Values
    cons : Value → Values → Values

  pub data Fields : Type 0 where
    end : Fields
    field : (key : Text) → Value → Fields → Fields

-- `o[key]`, none where it is undefined.
abbrev pub prop : Text → Fields → Option Value
prop k end = none
prop k (field j v fs) = if text_eq j k then some v else prop k fs

-- `v?.[key]` for a value that may be absent or no object.
abbrev pub member : Text → Option Value → Option Value
member k (some (object fs)) = prop k fs
member k _ = none

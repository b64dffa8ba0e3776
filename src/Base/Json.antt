-- ===== src/Base/Json.antt =====
-- What `json.load` returns, with whole numbers: a value, a list of values, or a dict whose first
-- entry for a key is the one that counts.
use Prim.Native.Nat.{zero, suc}
use Prim.Native.String.{String}
use mathlib.Core.Bool.{Bool, true, false}
use mathlib.Core.Option.{Option, none, some}
use podhaus.Base.Tests.{if◌then◌else◌}
use podhaus.Base.Int.{ℤ, pos, negsuc}
use podhaus.Base.Text.{str_eq}

mutual
  pub data Value : Type 0 where
    dict : Fields → Value
    array : Items → Value
    text : String → Value
    num : ℤ → Value
    flag : Bool → Value
    null : Value

  pub data Fields : Type 0 where
    end : Fields
    field : (key : String) (value : Value) (others : Fields) → Fields

  pub data Items : Type 0 where
    nil : Items
    cons : (first : Value) (others : Items) → Items

-- `d.get(key)`
unfoldable pub get : String → Fields → Option Value
get key end = none
get key (field k v fs) = if str_eq k key then some v else get key fs

-- `bool(v)`
unfoldable pub truth : Value → Bool
truth null = false
truth (flag b) = b
truth (num (pos zero)) = false
truth (num (pos (suc _))) = true
truth (num (negsuc _)) = true
truth (text String.[]) = false
truth (text (String.◌∷◌ _ _)) = true
truth (array nil) = false
truth (array (cons _ _)) = true
truth (dict end) = false
truth (dict (field _ _ _)) = true

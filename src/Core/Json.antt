-- ===== src/Core/Json.antt =====
-- `serde_json::Value`, as far as the vault reads and writes it: an object is the list of its
-- fields.
use agent_memory_vault.Base.{ℕ, ◌≡◌, Bool, true, false, Option, none, some, arith, if◌then◌else◌}
use agent_memory_vault.Core.Text.{Text, text_eq, text_eq_refl}

mutual
  pub data Value : Type 0 where
    null : Value
    boolean : Bool → Value
    number : ℕ → Value
    string : Text → Value
    array : Items → Value
    object : Fields → Value

  pub data Items : Type 0 where
    nil : Items
    cons : Value → Items → Items

  pub data Fields : Type 0 where
    end : Fields
    field : Text → Value → Fields → Fields

unfoldable pub get_field : Text → Fields → Option Value
get_field k end = none
get_field k (field j v fs) = if text_eq j k then some v else get_field k fs

-- `fs[k] = v`: the value of `k` is replaced, or the field is added.
unfoldable pub set_field : Text → Value → Fields → Fields
set_field k v end = field k v end
set_field k v (field j w fs) = if text_eq j k then field j v fs else field j w (set_field k v fs)

-- `value.get(key)`: nothing where the value is no object.
unfoldable pub get : Text → Value → Option Value
get k (object fs) = get_field k fs
get k _ = none

pub get_field-set_field_self :
    (k : Text) (v : Value) (fs : Fields) → get_field k (set_field k v fs) ≡ some v
unfolding get_field set_field
get_field-set_field_self k v end = ground (arith, text_eq_refl k)
get_field-set_field_self k v (field j w fs) = ground (arith, get_field-set_field_self k v fs)

pub get_field-set_field_ne :
    (k j : Text) (v : Value) (fs : Fields)
    → text_eq j k ≡ false
    → ((i : Text) → text_eq i j ≡ true → text_eq i k ≡ false)
    → get_field k (set_field j v fs) ≡ get_field k fs
unfolding get_field set_field
get_field-set_field_ne k j v end h apart = ground arith
get_field-set_field_ne k j v (field i w fs) h apart =
    ground (arith, get_field-set_field_ne k j v fs h apart, apart i)

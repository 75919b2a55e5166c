-- ===== src/Json.antt =====
-- JSON values: the public cases of `serde_json::Value` and the documented behaviour of the map
-- operations that the crates call. Reading and printing JSON text are no definitions here; the
-- modules that need them take them as parameters.
-- A map is an association list whose `insert` overwrites in place. No code below observes the
-- order of the entries of a map but its printer.
pub mod Laws
use native.Mathlib.Decide.{ℕ_discrete}
use silicon_omni.Prelude.{
  ℕ, String, ℤ, Bool, Option, none, some, List, [], ◌∷◌, str_eq, if◌then◌else◌, fits_i64, true,
  false, Bool-cases, inl, inr, eq_iff, ◌≡◌, arith, suc, Option-cases, refl,
}

mutual
  pub data Fields : Type 0 where
    field : String → Value → Fields → Fields
    end : Fields

  pub data Items : Type 0 where
    cons : Value → Items → Items
    nil : Items

  pub data Value : Type 0 where
    null : Value
    bool : Bool → Value
    num : ℤ → Value
    real : String → Value  -- a number that is no integer, by its text
    str : String → Value
    arr : Items → Value
    obj : Fields → Value

pub String-discrete : Discrete String
String-discrete a b = elim (Bool-cases (str_eq a b)) [
  | inl e ↦ yes ((eq_iff a b).0 e)
  | inr e ↦ no (λ p. ground (arith, eq_iff a b))
]

pub Value-discrete : Discrete Value
Value-discrete = hlevel (ℕ_discrete, String-discrete)

-- `==` on maps.
unfoldable pub Fields-discrete : Discrete Fields
Fields-discrete = hlevel (ℕ_discrete, String-discrete)

unfoldable pub get : String → Fields → Option Value
get k end = none
get k (field j v m) = if str_eq j k then some v else get k m

unfoldable pub insert : String → Value → Fields → Fields
insert k v end = field k v end
insert k v (field j w m) = if str_eq j k then field j v m else field j w (insert k v m)

unfoldable pub remove : String → Fields → Fields
remove k end = end
remove k (field j w m) = let rest = remove k m in if str_eq j k then rest else field j w rest

abbrev pub if_absent : Option Value → Fields → Fields → Fields
if_absent none m' m = m'
if_absent (some w) m' m = m

-- `entry(k).or_insert(v)`
unfoldable pub or_insert : String → Value → Fields → Fields
or_insert k v m = if_absent (get k m) (insert k v m) m

abbrev pub is_empty : Fields → Bool
is_empty end = true
is_empty (field k v m) = false

abbrev pub len : Fields → ℕ
len end = 0
len (field k v m) = suc (len m)

abbrev pub as_str : Value → Option String
as_str (str s) = some s
as_str _ = none

abbrev pub as_bool : Value → Option Bool
as_bool (bool b) = some b
as_bool _ = none

abbrev pub as_i64 : Value → Option ℤ
as_i64 (num n) = if fits_i64 n then some n else none
as_i64 _ = none

abbrev pub as_object : Value → Option Fields
as_object (obj m) = some m
as_object _ = none

abbrev pub as_array : Value → Option Items
as_array (arr xs) = some xs
as_array _ = none

abbrev pub is_null : Value → Bool
is_null null = true
is_null _ = false

abbrev pub to_list : Items → List Value
to_list nil = []
to_list (cons v xs) = v ∷ to_list xs

abbrev pub of_list : List Value → Items
of_list [] = nil
of_list (v ∷ xs) = cons v (of_list xs)

-- `value.get(k)` and `value[k]`: the field of an object, else nothing.
abbrev pub field_of : String → Value → Option Value
field_of k (obj m) = get k m
field_of k _ = none

-- ===== src/Json/Laws.antt =====
-- The laws of JSON maps that the clients use, with the operations shut.
use silicon_omni.Prelude.{
  ◌≡◌, refl, String, none, some, List, [], ◌∷◌, str_eq, eq_iff, if◌then◌else◌, arith, ap, eq_refl,
}
use silicon_omni.Json.{Value, Fields, end, field, get, insert, remove, or_insert, to_list, of_list}

pub get-insert :
    (k j : String) (v : Value) (m : Fields)
    → get j (insert k v m) ≡ (if str_eq k j then some v else get j m)
unfolding get insert
get-insert k j v end = refl
get-insert k j v (field i w m) =
    ground (arith, eq_iff k j, eq_iff i k, eq_iff i j, get-insert k j v m)

pub get-insert_self : (k : String) (v : Value) (m : Fields) → get k (insert k v m) ≡ some v
get-insert_self k v m = ground (arith, get-insert k k v m, eq_refl k)

pub get-remove :
    (k j : String) (m : Fields) → get j (remove k m) ≡ (if str_eq k j then none else get j m)
unfolding get remove
get-remove k j end = ground arith
get-remove k j (field i w m) = ground (arith, eq_iff k j, eq_iff i k, eq_iff i j, get-remove k j m)

-- Writing what is there already changes nothing.
pub insert-get_self : (k : String) (v : Value) (m : Fields) → get k m ≡ some v → insert k v m ≡ m
unfolding get insert
insert-get_self k v end h = ground arith
insert-get_self k v (field i w m) h = ground (arith, insert-get_self k v m)

-- The last write to a key wins.
pub insert-insert :
    (k : String) (v w : Value) (m : Fields) → insert k w (insert k v m) ≡ insert k w m
unfolding insert
insert-insert k v w end = ground (arith, eq_refl k)
insert-insert k v w (field i u m) = ground (arith, insert-insert k v w m)

pub get-or_insert :
    (k j : String) (v : Value) (m : Fields)
    → get j (or_insert k v m)
      ≡ (if str_eq k j then (elim (get k m) [ none ↦ some v | some w ↦ some w ]) else get j m)
unfolding or_insert
get-or_insert k j v m = ground (arith, get-insert k j v m, eq_iff k j)

-- An entry that is there is kept.
pub or_insert_present :
    (k : String) (v w : Value) (m : Fields) → get k m ≡ some w → or_insert k v m ≡ m
unfolding or_insert
or_insert_present k v w m h = rw h

pub to_list-of_list : (xs : List Value) → to_list (of_list xs) ≡ xs
to_list-of_list [] = refl
to_list-of_list (v ∷ xs) = ap (λ (r : List Value). v ∷ r) (to_list-of_list xs)

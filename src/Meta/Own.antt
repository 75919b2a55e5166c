-- ===== src/Meta/Own.antt =====
-- The metadata that the program itself writes.
use silicon_omni.Prelude.{
  ℕ, suc, String, ◌≡◌, ◌≢◌, refl, ap, false, some, List, [], ◌∷◌, map, eq_iff, arith,
}
use silicon_omni.Result.{ok}
use silicon_omni.Json.{Value, Fields, end, obj, arr, get, insert, to_list, of_list}
use silicon_omni.Json.Laws.{get-insert}
use silicon_omni.Meta.Load.{
  PendingMessage, from_value, to_value, contains, check_entries, check_messages, validate,
}
use silicon_omni.Meta.{Meta, pending, read_all, fresh_map}

-- Ids that are not empty, differ from those in `seen`, and from one another.
abbrev pub IsQueue : List String → List PendingMessage → Type 0
IsQueue seen [] = Unit {0}
IsQueue seen (p ∷ ps) = (p.id ≢ "") × (contains seen p.id ≡ false) × IsQueue (p.id ∷ seen) ps

-- Metadata with the three namespaces, whose pending messages are `queue`.
pub record IsOwn (m : Fields) (queue : List PendingMessage) : Type 0 where
  pub providers : (ps : Fields) × (get "providers" m ≡ some (obj ps)) × (check_entries ps ≡ ok tt)
  pub settings : (ss : Fields) × (get "settings" m ≡ some (obj ss))
  pub pending : get "pending" m ≡ some (arr (of_list (map to_value queue)))
  pub distinct : IsQueue [] queue

from_value-to_value : (p : PendingMessage) → from_value (to_value p) ≡ some p
unfolding from_value get
from_value-to_value p = refl

check_messages_own :
    (i : ℕ) (seen : List String) (queue : List PendingMessage)
    → IsQueue seen queue
    → check_messages i seen (of_list (map to_value queue)) ≡ ok tt
unfolding check_messages
check_messages_own i seen [] h = refl
check_messages_own i seen (p ∷ ps) h =
    ground (
      arith,
      from_value-to_value p,
      eq_iff p.id "",
      check_messages_own (suc i) (p.id ∷ seen) ps h.2,
    )

pub validate-IsOwn : (m : Fields) (queue : List PendingMessage) → IsOwn m queue → validate m ≡ ok m
unfolding validate
validate-IsOwn m queue h =
    let (ps, there, entries) = h.providers in
    let (ss, set) = h.settings in
    ground (arith, there, entries, set, h.pending, check_messages_own 0 [] queue h.distinct)

read_all_own : (queue : List PendingMessage) → read_all (map to_value queue) ≡ some queue
unfolding read_all
read_all_own [] = refl
read_all_own (p ∷ ps) = ground (arith, from_value-to_value p, read_all_own ps)

pub to_list-of_list : (xs : List Value) → to_list (of_list xs) ≡ xs
to_list-of_list [] = refl
to_list-of_list (x ∷ xs) = ap (λ (r : List Value). x ∷ r) (to_list-of_list xs)

-- The pending messages are the queue.
pub pending-IsOwn :
    (meta : Meta) (queue : List PendingMessage) → IsOwn meta.map queue → pending meta ≡ some queue
unfolding pending
pending-IsOwn meta queue h =
    ground (arith, h.pending, to_list-of_list (map to_value queue), read_all_own queue)

-- The stamp of a change is in no namespace.
pub stamped-IsOwn :
    (now : Value) (m : Fields) (queue : List PendingMessage)
    → IsOwn m queue
    → IsOwn (insert "updated" now m) queue
stamped-IsOwn now m queue h =
    let (ps, there, entries) = h.providers in
    let (ss, set) = h.settings in
    record {
      providers = (ps, simp get-insert there, entries);
      settings = (ss, simp get-insert set);
      pending = simp get-insert h.pending;
      distinct = h.distinct;
    }

pub fresh_map-IsOwn : (now session_id : String) → IsOwn (fresh_map now session_id) []
unfolding fresh_map get check_entries
fresh_map-IsOwn now session_id = record {
  providers = (end, refl, refl);
  settings = (end, refl);
  pending = refl;
  distinct = tt;
}

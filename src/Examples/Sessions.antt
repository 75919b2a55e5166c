-- ===== src/Examples/Sessions.antt =====
-- Metadata with two pending messages, which is in its file.
use mathlib.Core.List.{flatten}
use silicon_omni.Prelude.{
  String, pos, ◌≡◌, ◌≢◌, inr, refl, true, Option, none, some, List, [], ◌∷◌, ◌++◌, arith, eq_iff,
  map, if◌then◌else◌,
}
use silicon_omni.Json.{
  or_insert, Fields, str, bool, obj, arr, end, field, get, insert, of_list, is_null,
}
use silicon_omni.Meta.Load.{PendingMessage, to_value, check_entries}
use silicon_omni.Meta.{
  Meta, replaced, saved, fresh_map, enqueue, retry, complete, reconcile, recover, bind, mark_synced,
  native, set_setting, setting, initialize_settings, open_meta, non_null, in_object, in_entry,
  set_index, or_insert_all, pending,
}
use silicon_omni.Meta.Own.{IsOwn, IsQueue}
use silicon_omni.Meta.Commit.{IsInStep, Commits, Saves, commit-replaced, load-pretty}
use silicon_omni.Meta.Queue.{
  enqueue-Commits, pending-open_meta, enqueue-replaced, retry-Commits, complete-Commits,
  reconcile-Commits, recover-Commits,
}
use silicon_omni.Meta.Settings.{setting-set_setting, setting-initialize_settings}
use silicon_omni.Meta.Native.{native-bind, native-mark_synced}
use silicon_omni.Examples.Coding.{meta_codec as c, meta_IsJson as json}

abbrev now : String
now = "2026-01-01T00:00:00Z"

abbrev first : PendingMessage
first = record { id = "a"; text = "hello" }

abbrev second : PendingMessage
second = record { id = "b"; text = "again" }

abbrev third : PendingMessage
third = record { id = "d"; text = "more" }

abbrev queue : List PendingMessage
queue = first ∷ second ∷ []

abbrev queued_map : Fields
queued_map = insert "pending" (arr (of_list (map to_value queue))) (fresh_map now "s")

abbrev meta : Meta
meta = record {
  session_id = "s";
  file = some (c.pretty queued_map);
  map = queued_map;
  load_error = none;
}

a_filled : ◌≢◌ {A = String} "a" ""
a_filled e = ground (arith, eq_iff "a" "")

b_filled : ◌≢◌ {A = String} "b" ""
b_filled e = ground (arith, eq_iff "b" "")

d_filled : ◌≢◌ {A = String} "d" ""
d_filled e = ground (arith, eq_iff "d" "")

queue-IsQueue : IsQueue [] queue
queue-IsQueue = (a_filled, refl, (b_filled, refl, tt))

longer-IsQueue : IsQueue [] (queue ++ (third ∷ []))
longer-IsQueue = (a_filled, refl, (b_filled, refl, (d_filled, refl, tt)))

meta-IsOwn : IsOwn meta.map queue
unfolding fresh_map insert get check_entries
meta-IsOwn = record {
  providers = (end, refl, refl);
  settings = (end, refl);
  pending = refl;
  distinct = queue-IsQueue;
}

meta-IsInStep : IsInStep c meta queue
meta-IsInStep = record {
  sound = refl;
  own = meta-IsOwn;
  stored = inr (load-pretty c json queued_map queue meta-IsOwn);
}

pending-open_meta_example :
    let reopened = open_meta c true "later" "s" (enqueue c replaced now "d" "more" meta).0.file in
    (pending reopened ≡ some (queue ++ (third ∷ []))) × (reopened.load_error ≡ none)
pending-open_meta_example =
    pending-open_meta c json replaced now "d" "more" "later" meta queue meta-IsInStep longer-IsQueue
      (enqueue-replaced c now "d" "more" meta queue meta-IsInStep)

enqueue-Commits_example :
    Saves c meta (queue ++ (third ∷ [])) (enqueue c replaced now "d" "more" meta)
enqueue-Commits_example =
    enqueue-Commits c json replaced now "d" "more" meta queue meta-IsInStep longer-IsQueue

complete-Commits_example : Commits c meta (second ∷ []) (complete c replaced now "a" meta)
complete-Commits_example = complete-Commits c json replaced now "a" meta queue meta-IsInStep

retry-Commits_example :
    Commits c meta (third ∷ queue) (retry c replaced now (λ i. "d") (("more" ∷ []) ∷ []) meta)
unfolding flatten
retry-Commits_example =
    retry-Commits c json replaced now (λ i. "d") (("more" ∷ []) ∷ []) meta queue meta-IsInStep
      (d_filled, refl, (a_filled, refl, (b_filled, refl, tt)))

reconcile-Commits_example : Commits c meta (first ∷ []) (reconcile c replaced now ("b" ∷ []) meta)
reconcile-Commits_example =
    reconcile-Commits c json replaced now ("b" ∷ []) meta queue meta-IsInStep

recover-Commits_example :
    Commits c meta
      (third ∷ second ∷ [])
      (recover c replaced now (bool true) (some (pos 4)) (some third) (some "a") meta)
recover-Commits_example =
    recover-Commits c json replaced now (bool true) (some (pos 4)) (some third) (some "a") meta
      queue meta-IsInStep (d_filled, refl, (b_filled, refl, tt))

abbrev titled : Fields → Option Fields
titled m = some (insert "title" (str "kites") m)

bind-saved : (bind c replaced now "claude" "n1" meta).1 ≡ saved
unfolding bind in_object in_entry set_index get insert or_insert fresh_map
bind-saved = commit-replaced c now _ meta _ refl refl

mark_synced-saved : (mark_synced c replaced now "claude" (pos 3) meta).1 ≡ saved
unfolding mark_synced in_object in_entry set_index get insert or_insert fresh_map
mark_synced-saved = commit-replaced c now _ meta _ refl refl

set_setting-saved : (set_setting c replaced now "cwd" (str "/") meta).1 ≡ saved
unfolding set_setting in_object get insert or_insert fresh_map
set_setting-saved = commit-replaced c now _ meta _ refl refl

initialize_settings-saved :
    (initialize_settings c replaced now (field "cwd" (str "/") end) meta).1 ≡ saved
unfolding initialize_settings in_object get insert or_insert or_insert_all fresh_map
initialize_settings-saved = commit-replaced c now _ meta _ refl refl

settings_empty : get "settings" meta.map ≡ some (obj end)
unfolding get insert fresh_map
settings_empty = refl

native-bind_example :
    (native (bind c replaced now "claude" "n1" meta).0 "claude" ≡ ("n1", (native meta "claude").1))
    × ((q : String)
        → q ≢ "claude"
        → native (bind c replaced now "claude" "n1" meta).0 q ≡ native meta q)
native-bind_example = native-bind c replaced now "claude" "n1" meta queue meta-IsOwn bind-saved

native-mark_synced_example :
    (native (mark_synced c replaced now "claude" (pos 3) meta).0 "claude"
      ≡ ((native meta "claude").0, pos 3))
    × ((q : String)
        → q ≢ "claude"
        → native (mark_synced c replaced now "claude" (pos 3) meta).0 q ≡ native meta q)
native-mark_synced_example =
    native-mark_synced c replaced now "claude" (pos 3) meta queue refl meta-IsOwn mark_synced-saved

setting-set_setting_example :
    (setting (set_setting c replaced now "cwd" (str "/") meta).0 "cwd"
      ≡ (if is_null (str "/") then none else some (str "/")))
    × ((k : String)
        → k ≢ "cwd"
        → setting (set_setting c replaced now "cwd" (str "/") meta).0 k ≡ setting meta k)
setting-set_setting_example =
    setting-set_setting c replaced now "cwd" (str "/") meta queue meta-IsOwn set_setting-saved

setting-initialize_settings_example :
    setting (initialize_settings c replaced now (field "cwd" (str "/") end) meta).0 "cwd"
    ≡ (elim (get "cwd" end) [
      | none ↦ non_null (get "cwd" (field "cwd" (str "/") end))
      | some v ↦ setting meta "cwd"
    ])
setting-initialize_settings_example =
    setting-initialize_settings c replaced now (field "cwd" (str "/") end) end "cwd" meta
      settings_empty initialize_settings-saved

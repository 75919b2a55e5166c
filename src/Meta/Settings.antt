-- ===== src/Meta/Settings.antt =====
-- The settings of a session.
use silicon_omni.Prelude.{String, ◌≡◌, ◌≢◌, ◌∙◌, none, some, eq_iff, if◌then◌else◌, arith, List}
use silicon_omni.Json.{Value, Fields, obj, get, insert, or_insert, is_null, end, field}
use silicon_omni.Json.Laws.{get-insert, get-or_insert, or_insert_present}
use silicon_omni.Meta.Load.{Codec, PendingMessage}
use silicon_omni.Meta.Own.{IsOwn}
use silicon_omni.Meta.{
  Meta, Replacing, saved, commit, in_object, set_setting, setting, initialize_settings,
  or_insert_all, non_null,
}
use silicon_omni.Meta.Native.{saved-get}

module _ (c : Codec) (w : Replacing) (now : String) where
  -- A saved change of the settings that keeps their object.
  setting-commit :
      (change : Fields → Fields) (meta : Meta) (ss : Fields) (key : String)
      → get "settings" meta.map ≡ some (obj ss)
      → (commit c w now (in_object "settings" (λ m. some (change m))) meta).1 ≡ saved
      → setting (commit c w now (in_object "settings" (λ m. some (change m))) meta).0 key
        ≡ non_null (get key (change ss))
  unfolding setting in_object
  setting-commit change meta ss key h done =
      let f = in_object "settings" (λ m. some (change m)) in
      let next = insert "settings" (obj (change ss)) meta.map in
      let made : f meta.map ≡ some next =
        ground (arith, h, or_insert_present "settings" (obj end) (obj ss) meta.map h) in
      let kept =
        saved-get c w now f meta next "settings" made done
          (λ x. ground (arith, eq_iff "settings" "updated")) in
      ground (arith, kept, get-insert "settings" "settings" (obj (change ss)) meta.map)

  -- Where the metadata has its namespaces, `setting` reads what a saved `set_setting` wrote (a
  -- null as nothing), and no other setting changes.
  pub setting-set_setting :
      (key : String) (v : Value) (meta : Meta) (queue : List PendingMessage)
      → IsOwn meta.map queue
      → (set_setting c w now key v meta).1 ≡ saved
      → (setting (set_setting c w now key v meta).0 key ≡ (if is_null v then none else some v))
        × ((k : String) → k ≢ key → setting (set_setting c w now key v meta).0 k ≡ setting meta k)
  unfolding set_setting setting
  setting-set_setting key v meta queue own done =
      let (ss, h) = own.settings in
      let read = λ (k : String). setting-commit (insert key v) meta ss k h done in
      (
        read key ∙ ground (arith, get-insert key key v ss, eq_iff key key),
        λ k d. read k ∙ ground (arith, get-insert key k v ss, eq_iff key k, h),
      )

  get-or_insert_all :
      (defaults m : Fields) (k : String)
      → get k (or_insert_all defaults m)
        ≡ (elim (get k m) [ none ↦ get k defaults | some v ↦ some v ])
  unfolding or_insert_all get
  get-or_insert_all end m k = ground arith
  get-or_insert_all (field j v defaults) m k =
      ground
        (arith, get-or_insert_all defaults (or_insert j v m) k, get-or_insert j k v m, eq_iff j k)

  -- Where the settings are an object, a saved `initialize_settings` gives the defaults to the
  -- settings that have no entry, and leaves every other setting as it was.
  pub setting-initialize_settings :
      (defaults ss : Fields) (key : String) (meta : Meta)
      → get "settings" meta.map ≡ some (obj ss)
      → (initialize_settings c w now defaults meta).1 ≡ saved
      → setting (initialize_settings c w now defaults meta).0 key
        ≡ (elim (get key ss) [ none ↦ non_null (get key defaults) | some v ↦ setting meta key ])
  unfolding initialize_settings setting
  setting-initialize_settings defaults ss key meta h done =
      setting-commit (or_insert_all defaults) meta ss key h done
      ∙ ground (arith, get-or_insert_all defaults ss key, h)

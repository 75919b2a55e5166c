-- ===== src/Meta/Native.antt =====
-- The native sessions and the settings of a session.
use silicon_omni.Prelude.{
  String, ℤ, minus_one, ◌≡◌, ◌≢◌, refl, sym, ap, ◌∙◌, ◌⊎◌, inl, inr, true, Option, none, some,
  str_eq, eq_iff, arith, fits_i64, unwrap_or, ◌>>=◌, Bool-cases, List,
}
use silicon_omni.Result.{ok}
use silicon_omni.Json.{
  Value, Fields, obj, num, str, get, insert, or_insert, field_of, as_str, as_i64, end, field,
}
use silicon_omni.Json.Laws.{get-insert, get-or_insert, or_insert_present}
use silicon_omni.Meta.Load.{Codec, PendingMessage, check_entries, check_entry}
use silicon_omni.Meta.Own.{IsOwn}
use silicon_omni.Meta.{
  Meta, Replacing, replaced, kept, unsynced, saved, commit, bind, mark_synced, native, in_object,
  in_entry, set_index,
}

-- The map after a change that is saved is the changed map, but for the stamp.
pub saved-get :
    (c : Codec) (w : Replacing) (now : String) (change : Fields → Option Fields) (meta : Meta)
    (next : Fields) (k : String)
    → change meta.map ≡ some next
    → (commit c w now change meta).1 ≡ saved
    → k ≢ "updated"
    → get k (commit c w now change meta).0.map ≡ get k next
unfolding commit
saved-get c replaced now change meta next k e h d =
    ground (arith, get-insert "updated" k (str now) next, eq_iff "updated" k)
saved-get c kept now change meta next k e h d =
    ground (arith, get-insert "updated" k (str now) next, eq_iff "updated" k)
saved-get c unsynced now change meta next k e h d =
    ground (arith, get-insert "updated" k (str now) next, eq_iff "updated" k)

-- What an entry tells of the native session: its id, and how far it has been told.
abbrev pub told : Option Value → String × ℤ
told none = ("", minus_one)
told (some entry) = (
  unwrap_or (field_of "id" entry >>= as_str) "",
  unwrap_or (field_of "synced" entry >>= as_i64) minus_one,
)

native-told :
    (meta : Meta) (ps : Fields) (p : String)
    → get "providers" meta.map ≡ some (obj ps)
    → native meta p ≡ told (get p ps)
unfolding native
native-told meta ps p h = ground (arith, h)

-- An entry that the loader accepts is an object.
entry_object :
    (ps : Fields) (p : String)
    → check_entries ps ≡ ok tt
    → (get p ps ≡ none) ⊎ ((m : Fields) × (get p ps ≡ some (obj m)))
unfolding check_entries check_entry get
entry_object end p h = inl refl
entry_object (field q (obj m) ps) p h = elim (Bool-cases (str_eq q p)) [
  | inl e ↦ inr (m, ground (arith, e))
  | inr e ↦ rw e (entry_object ps p (ground (arith, h)))
]
entry_object (field q _ ps) p h = absurd (ground arith)

abbrev fields_of : Option Value → Fields
fields_of (some (obj m)) = m
fields_of _ = field "id" (str "") (field "synced" (num minus_one) end)

-- The entry of a provider gets the field, and no other entry changes.
entered :
    (m ps : Fields) (p f : String) (v : Value)
    → get "providers" m ≡ some (obj ps)
    → check_entries ps ≡ ok tt
    → (next : Fields) × (qs : Fields) × (in_object "providers" (in_entry p f v) m ≡ some next)
      × (get "providers" next ≡ some (obj qs))
      × (get p qs ≡ some (obj (insert f v (fields_of (get p ps)))))
      × ((q : String) → q ≢ p → get q qs ≡ get q ps)
unfolding in_object in_entry set_index
entered m ps p f v h checked =
    let entry = obj (insert f v (fields_of (get p ps))) in
    let qs = insert p entry (or_insert p (obj (fields_of none)) ps) in
    let object : set_index f v (unwrap_or (get p ps) (obj (fields_of none))) ≡ some entry =
      elim (entry_object ps p checked) [
        | inl e ↦ ground (arith, e)
        | inr (m, e) ↦ ground (arith, e)
      ] in
    (
      insert "providers" (obj qs) m,
      qs,
      ground (arith, or_insert_present "providers" (obj end) (obj ps) m h, h, object),
      ground (arith, get-insert "providers" "providers" (obj qs) m),
      ground (arith, get-insert p p entry (or_insert p (obj (fields_of none)) ps), eq_iff p p),
      λ q d. ground (
        arith,
        get-insert p q entry (or_insert p (obj (fields_of none)) ps),
        eq_iff p q,
        get-or_insert p q (obj (fields_of none)) ps,
      ),
    )

told-fields :
    (ps : Fields) (p : String)
    → check_entries ps ≡ ok tt
    → told (some (obj (fields_of (get p ps)))) ≡ told (get p ps)
unfolding get
told-fields ps p checked = elim (entry_object ps p checked) [
  | inl e ↦ rw e refl
  | inr (m, e) ↦ rw e refl
]

module _ (c : Codec) (w : Replacing) (now : String) where
  -- A saved change of one entry, as the natives of all providers tell it.
  native-entry :
      (p f : String) (v : Value) (meta : Meta) (ps : Fields)
      → get "providers" meta.map ≡ some (obj ps)
      → check_entries ps ≡ ok tt
      → (commit c w now (in_object "providers" (in_entry p f v)) meta).1 ≡ saved
      → let r = (commit c w now (in_object "providers" (in_entry p f v)) meta).0 in
        (native r p ≡ told (some (obj (insert f v (fields_of (get p ps))))))
        × ((q : String) → q ≢ p → native r q ≡ native meta q)
  native-entry p f v meta ps h checked done =
      let (next, qs, e, there, self, others) = entered meta.map ps p f v h checked in
      let r = (commit c w now (in_object "providers" (in_entry p f v)) meta).0 in
      let kept =
        saved-get c w now (in_object "providers" (in_entry p f v)) meta next "providers" e done
          (λ x. ground (arith, eq_iff "providers" "updated"))
        ∙ there in
      (
        native-told r qs p kept ∙ ap told self,
        λ q d. native-told r qs q kept ∙ ap told (others q d) ∙ sym (native-told meta ps q h),
      )

  -- Where the metadata has its namespaces, a saved `bind` gives the provider its native session,
  -- keeps how far that had been told, and changes the native session of no other provider.
  pub native-bind :
      (provider id : String) (meta : Meta) (queue : List PendingMessage)
      → IsOwn meta.map queue
      → (bind c w now provider id meta).1 ≡ saved
      → (native (bind c w now provider id meta).0 provider ≡ (id, (native meta provider).1))
        × ((q : String) → q ≢ provider → native (bind c w now provider id meta).0 q ≡ native meta q)
  unfolding bind
  native-bind provider id meta queue own done =
      let (ps, h, checked) = own.providers in
      let (self, others) = native-entry provider "id" (str id) meta ps h checked done in
      let fs = fields_of (get provider ps) in
      (
        self
            ∙ ground (arith, get-insert "id" "id" (str id) fs, get-insert "id" "synced" (str id) fs)
            ∙ ap (λ (t : String × ℤ). (id, t.1)) (told-fields ps provider checked)
            ∙ ap (λ (t : String × ℤ). (id, t.1)) (sym (native-told meta ps provider h)),
        others,
      )

  -- Where the metadata has its namespaces, a saved `mark_synced` with a position in the range of
  -- i64 sets how far the provider has been told, keeps its native session, and changes no other
  -- provider.
  pub native-mark_synced :
      (provider : String) (seq : ℤ) (meta : Meta) (queue : List PendingMessage)
      → fits_i64 seq ≡ true
      → IsOwn meta.map queue
      → (mark_synced c w now provider seq meta).1 ≡ saved
      → (native (mark_synced c w now provider seq meta).0 provider
          ≡ ((native meta provider).0, seq))
        × ((q : String)
            → q ≢ provider
            → native (mark_synced c w now provider seq meta).0 q ≡ native meta q)
  unfolding mark_synced
  native-mark_synced provider seq meta queue fits own done =
      let (ps, h, checked) = own.providers in
      let (self, others) = native-entry provider "synced" (num seq) meta ps h checked done in
      let fs = fields_of (get provider ps) in
      (
        self
            ∙ ground (
              arith,
              fits,
              get-insert "synced" "id" (num seq) fs,
              get-insert "synced" "synced" (num seq) fs,
            )
            ∙ ap (λ (t : String × ℤ). (t.0, seq)) (told-fields ps provider checked)
            ∙ ap (λ (t : String × ℤ). (t.0, seq)) (sym (native-told meta ps provider h)),
        others,
      )

-- ===== src/Store/Records.antt =====
-- The records of a file and the events of the store that opens it.
use silicon_omni.Prelude.{
  String, ◌≡◌, refl, ap, sym, ◌∙◌, inl, inr, Option, none, some, List, [], ◌∷◌, ◌++◌, map,
  append-nil, append_assoc, Option-cases, arith,
}
use silicon_omni.Events.{Event}
use silicon_omni.Events.Serial.{from_value}
use silicon_omni.Jsonl.{Bytes, Codec}
use silicon_omni.Jsonl.Read.{opened, Record, read_checked}
use silicon_omni.Jsonl.Read.Lines.{healthy}
use silicon_omni.Store.{Checked, good, bad, LoadError, check, check_event, load, open_store}
use silicon_omni.Store.Durable.{IsDurable, open_store-IsDurable}

check-good :
    (id : String) (es : List Event) (r : Record) (e : Event)
    → check id es r ≡ good e
    → from_value r.value ≡ some e
unfolding check check_event
check-good id es r e h = elim (Option-cases (from_value r.value)) [
  | inl f ↦ absurd (ground (arith, h, f))
  | inr (x, f) ↦ ground (arith, h, f)
]

map-append_some :
    (es : List Event) (e : Event) → map some (es ++ (e ∷ [])) ≡ map some es ++ (some e ∷ [])
map-append_some [] e = refl
map-append_some (x ∷ es) e = ap (λ (l : List (Option Event)). some x ∷ l) (map-append_some es e)

-- What `load` takes in without an error are the events of the records.
load-records :
    (id : String) (es : List Event) (rs : List Record) (r : List Event × Option LoadError)
    → load id es rs ≡ r
    → r.1 ≡ none
    → map some r.0 ≡ map some es ++ map (λ x. from_value x.value) rs
unfolding load check
load-records id es [] r h k =
    ap (λ (x : List Event × Option LoadError). map some x.0) (sym h)
    ∙ sym (append-nil (map some es))
load-records id es (x ∷ rs) r h k = go (λ es'. load-records id es' rs r) (check id es x) refl
  where
    go :
        ((es' : List Event)
          → load id es' rs ≡ r
          → r.1 ≡ none
          → map some r.0 ≡ map some es' ++ map (λ y. from_value y.value) rs)
        → (d : Checked) → check id es x ≡ d
        → map some r.0 ≡ map some es ++ (from_value x.value ∷ map (λ y. from_value y.value) rs)
    go later (bad error) e = absurd (ground (arith, h, k, e))
    go later (good event) e =
        let rest = later (es ++ (event ∷ [])) (ground (arith, h, e)) k in
        ground (
          arith,
          rest,
          check-good id es x event e,
          map-append_some es event,
          append_assoc (map some es) (some event ∷ []) (map (λ y. from_value y.value) rs),
        )

module _ (c : Codec) where
  -- A store that opens without an error holds the event of every record of the file, each once and
  -- in the order of the file, and no other; and it is in step with its file.
  pub open_store-records :
      (id : String) (file : Option Bytes)
      → let s = open_store c (opened healthy) id file in
        s.load_error ≡ none
        → (map some s.events
            ≡ map (λ r. from_value r.value) (read_checked c (opened healthy) file).records)
          × IsDurable c s
  unfolding open_store
  open_store-records id file h = (
    load-records id [] (read_checked c (opened healthy) file).records
        (load id [] (read_checked c (opened healthy) file).records) refl (ground (arith, h)),
    open_store-IsDurable c id file h,
  )

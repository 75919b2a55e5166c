-- ===== src/Choose/Stored.antt =====
-- Writing and reading the file of answers.
use silicon_omni.Prelude.{
  String, ◌≡◌, ◌≢◌, refl, ap, ◌∙◌, Bool, true, false, Option, some, eq_iff, arith,
}
use silicon_omni.Json.{obj, num, get, insert}
use silicon_omni.Json.Laws.{get-insert}
use silicon_omni.Jsonl.{Bytes, Codec, IsJson}
use silicon_omni.Choose.Asking.{Pick}
use silicon_omni.Choose.Cache.{
  Doubles, saved, read_cache, write_cache, cached, from_value, to_value, version, entry_of,
  read_entry,
}

pub from_value-to_value : (pick : Pick) → from_value (to_value pick) ≡ some pick
unfolding from_value get
from_value-to_value pick = refl

module _ (c : Codec) (json : IsJson c) (d : Doubles) where
  cached-write_cache :
      (name : String) (pick : Pick) (ttl now : d.F64) (file : Option Bytes)
      → name ≢ "version"
      → cached c (write_cache c d saved name pick ttl now file)
        ≡ insert name (entry_of c d now pick ttl) (insert "version" (num version) (cached c file))
  unfolding cached write_cache
  cached-write_cache name pick ttl now file h =
      let blob = insert "version" (num version) (cached c file) in
      ground (
        arith,
        json.parse-print (obj (insert name (entry_of c d now pick ttl) blob)),
        get-insert name "version" (entry_of c d now pick ttl) blob,
        eq_iff name "version",
        get-insert "version" "version" (num version) (cached c file),
      )

  read_entry-any :
      (later : d.F64) (pick : Pick) (ttl now : d.F64)
      → read_entry c d false later (some (entry_of c d now pick ttl)) ≡ some pick
  unfolding get from_value
  read_entry-any later pick ttl now = refl

  read_entry-fresh :
      (later : d.F64) (pick : Pick) (ttl now : d.F64)
      → d.as_f64 (d.to_value now) ≡ some now
      → d.as_f64 (d.to_value ttl) ≡ some ttl
      → d.above (d.minus later now) ttl ≡ false
      → read_entry c d true later (some (entry_of c d now pick ttl)) ≡ some pick
  unfolding get from_value
  read_entry-fresh later pick ttl now real_now real_ttl young =
      ground (arith, real_now, real_ttl, young)

  -- Where times survive JSON and the name is not "version", what a successful write puts under a
  -- name is read back under it, at any age, and as fresh while it is no older than its time to
  -- live; what stands under another name stays as it was.
  pub read_cache-write_cache :
      (name : String) (pick : Pick) (ttl now : d.F64) (file : Option Bytes)
      → name ≢ "version"
      → d.as_f64 (d.to_value now) ≡ some now
      → d.as_f64 (d.to_value ttl) ≡ some ttl
      → let file' = write_cache c d saved name pick ttl now file in
        ((later : d.F64) → read_cache c d name false later file' ≡ some pick)
        × ((later : d.F64)
            → d.above (d.minus later now) ttl ≡ false
            → read_cache c d name true later file' ≡ some pick)
        × ((other : String) (fresh_only : Bool) (later : d.F64)
            → other ≢ "version"
            → other ≢ name
            → read_cache c d other fresh_only later file'
              ≡ read_cache c d other fresh_only later file)
  unfolding read_cache get
  read_cache-write_cache name pick ttl now file h real_now real_ttl =
      let entry = entry_of c d now pick ttl in
      let blob = insert "version" (num version) (cached c file) in
      let e = cached-write_cache name pick ttl now file h in
      let found : get name (cached c (write_cache c d saved name pick ttl now file)) ≡ some entry =
        ap (get name) e ∙ ground (arith, get-insert name name entry blob, eq_iff name name) in
      (
        λ later. ap (λ o. read_entry c d false later o) found ∙ read_entry-any later pick ttl now,
        λ later young.
            ap (λ o. read_entry c d true later o) found
            ∙ read_entry-fresh later pick ttl now real_now real_ttl young,
        λ other fresh_only later d₁ d₂.
            ap (λ o. read_entry c d fresh_only later o)
              (ap (get other) e
                ∙ ground (
                  arith,
                  get-insert name other entry blob,
                  eq_iff name other,
                  get-insert "version" other (num version) (cached c file),
                  eq_iff "version" other,
                )),
      )

-- A fresh answer is an answer of any age.
pub read_cache-any :
    (c : Codec) (d : Doubles) (name : String) (now : d.F64) (file : Option Bytes) (pick : Pick)
    → read_cache c d name true now file ≡ some pick
    → read_cache c d name false now file ≡ some pick
unfolding read_cache
read_cache-any c d name now file pick h = ground arith

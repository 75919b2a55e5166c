-- ===== src/Meta/Commit.antt =====
-- Changes of the metadata, in memory and in the file.
use silicon_omni.Prelude.{
  String, ◌≡◌, refl, ◌⊎◌, inl, inr, true, Option, none, some, List, [], arith, subst,
}
use silicon_omni.Result.{ok}
use silicon_omni.Json.{Fields, str, insert}
use silicon_omni.Meta.Load.{PendingMessage, Codec, IsJson, load}
use silicon_omni.Meta.{
  Meta, Replacing, replaced, kept, unsynced, Status, saved, failed, commit, open_meta,
}
use silicon_omni.Meta.Own.{IsOwn, validate-IsOwn, stamped-IsOwn, fresh_map-IsOwn}

module _ (c : Codec) where
  -- The file is read back as the map in memory.
  abbrev pub IsFiled : Meta → Type 0
  IsFiled meta = load c true meta.file ≡ ok (some meta.map)

  -- The memory holds what the file does, with the pending messages `queue`; a new session, of which
  -- nothing was saved yet, has no file.
  pub record IsInStep (meta : Meta) (queue : List PendingMessage) : Type 0 where
    pub sound : meta.load_error ≡ none
    pub own : IsOwn meta.map queue
    pub stored : (meta.file ≡ none) ⊎ IsFiled meta

  -- What becomes of a change that makes the pending messages `queue`: it is saved in the memory
  -- and in the file, which is there then; or there was nothing to change, and nothing is changed;
  -- or it fails and the memory is as it was.
  abbrev pub Commits : Meta → List PendingMessage → Meta × Status → Type 0
  Commits meta queue r =
      ((r.1 ≡ saved) × IsInStep r.0 queue × ((r.0 ≡ meta) ⊎ IsFiled r.0))
      ⊎ ((r.1 ≡ failed) × (r.0.map ≡ meta.map))

  -- The same of a change that is one in any case.
  abbrev pub Saves : Meta → List PendingMessage → Meta × Status → Type 0
  Saves meta queue r =
      ((r.1 ≡ saved) × IsInStep r.0 queue × IsFiled r.0) ⊎ ((r.1 ≡ failed) × (r.0.map ≡ meta.map))

  pub IsInStep-new : (now session_id : String) → IsInStep (open_meta c true now session_id none) []
  unfolding open_meta load
  IsInStep-new now session_id = record {
    sound = refl;
    own = fresh_map-IsOwn now session_id;
    stored = inl refl;
  }

  pub commit-replaced :
      (now : String) (change : Fields → Option Fields) (meta : Meta) (next : Fields)
      → meta.load_error ≡ none
      → change meta.map ≡ some next
      → (commit c replaced now change meta).1 ≡ saved
  unfolding commit
  commit-replaced now change meta next h e = ground (arith, h, e)

module _ (c : Codec) (json : IsJson c) where
  pub load-pretty :
      (m : Fields) (queue : List PendingMessage)
      → IsOwn m queue
      → load c true (some (c.pretty m)) ≡ ok (some m)
  unfolding load
  load-pretty m queue h = ground (arith, json.parse-pretty m, validate-IsOwn m queue h)

  -- The three ends of a change: nothing to change, saved, or failed.
  commit_cases :
      (w : Replacing) (now : String) (change : Fields → Option Fields) (meta : Meta) (next : Fields)
      → meta.load_error ≡ none
      → change meta.map ≡ some next
      → ((commit c w now change meta ≡ (meta, saved)) × (next ≡ meta.map))
        ⊎ (let m = insert "updated" (str now) next in
            (commit c w now change meta
              ≡ (record meta { file = some (c.pretty m); map = m }, saved))
            ⊎ (((commit c w now change meta).1 ≡ failed)
                × ((commit c w now change meta).0.map ≡ meta.map)))
  unfolding commit
  commit_cases replaced now change meta next h e = ground (arith, h, e)
  commit_cases kept now change meta next h e = ground (arith, h, e)
  commit_cases unsynced now change meta next h e = ground (arith, h, e)

  pub commit-Commits :
      (w : Replacing) (now : String) (change : Fields → Option Fields) (meta : Meta)
      (before after : List PendingMessage) (next : Fields)
      → IsInStep c meta before
      → change meta.map ≡ some next
      → IsOwn next after
      → Commits c meta after (commit c w now change meta)
  commit-Commits w now change meta before after next h e own =
      let written = stamped-IsOwn (str now) next after own in
      let filed = load-pretty (insert "updated" (str now) next) after written in
      elim (commit_cases w now change meta next h.sound e) [
        | inl (r, same) ↦ rw r (
            inl (
              refl,
              record {
                sound = h.sound;
                own = subst (λ m. IsOwn m after) same own;
                stored = h.stored;
              },
              inl refl,
            ))
        | inr (inl r) ↦
            rw r
              (inl (refl, record { sound = h.sound; own = written; stored = inr filed }, inr filed))
        | inr (inr f) ↦ inr f
      ]

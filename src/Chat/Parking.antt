-- ===== src/Chat/Parking.antt =====
-- crates/omni-core/src/chat.rs: providers set aside still running, and taken back.
use Prim.Native.String.{compare}
use text.Mathlib.Text.{is_le}
use silicon_omni.Prelude.{
  ℕ, String, ℤ, succ, minus_one, Bool, true, false, not, ◌&&◌, Option, none, some, List, [], ◌∷◌,
  str_eq, if◌then◌else◌,
}
use silicon_omni.Json.{str}
use silicon_omni.Events.{config, from, with_extra}
use silicon_omni.Meta.{Meta, Status, bind, mark_synced, native}
use silicon_omni.Store.{seq}
use silicon_omni.Chat.{Chat, Outside, Parked, Signature}
use silicon_omni.Chat.Recording.{then_ok, kept, or_fail, recorded, stop, called, persistence_failed}
use silicon_omni.Chat.Choosing.{prompts_moved, history_for, same_config, same_tuning}

-- A map by name, as the source's `BTreeMap`.
module _ {A : Type 0} where
  abbrev pub find : String → List (String × A) → Option A
  find name [] = none
  find name ((other, a) ∷ entries) =
      let rest = find name entries in if str_eq other name then some a else rest

  abbrev pub without : String → List (String × A) → List (String × A)
  without name [] = []
  without name ((other, a) ∷ entries) =
      let rest = without name entries in if str_eq other name then rest else (other, a) ∷ rest

  abbrev pub put : String → A → List (String × A) → List (String × A)
  put name a [] = (name, a) ∷ []
  put name a ((other, b) ∷ entries) =
      let rest = put name a entries in
      if str_eq other name
      then (name, a) ∷ entries
      else if is_le (compare name other)
      then (name, a) ∷ (other, b) ∷ entries
      else (other, b) ∷ rest

module _ {R : Type 0} where
  unfoldable pub both : Chat R × Bool → (Chat R → Chat R × Bool) → Chat R × Bool
  both (c, done) next = let (d, done') = next c in (d, done && done')

  unfoldable pub taken_back : Option ℕ → R → Chat R × Bool → Chat R × Option (R × Option ℕ)
  taken_back epoch r (c, true) = (c, some (r, epoch))
  taken_back epoch r (c, false) = (c, none)

  unfoldable pub with_tuning :
      Bool → Chat R × Option (R × Option ℕ) → Chat R × Option (R × (Option ℕ × Bool))
  with_tuning matches (c, none) = (c, none)
  with_tuning matches (c, some (r, epoch)) = (c, some (r, (epoch, matches)))

module _ {R : Type 0} (o : Outside R) where
  unfoldable pub bound : String → String → Chat R → Meta × Status
  bound name id c = bind o.metas (o.replacing c.calls) (o.now c.calls) name id c.meta

  unfoldable pub marked : String → ℤ → Chat R → Meta × Status
  marked name synced c =
      mark_synced o.metas (o.replacing c.calls) (o.now c.calls) name synced c.meta

  -- A runner that goes down with the session if an operation on the metadata fails.
  unfoldable pub or_stop : String → R → Chat R × Bool → Chat R × Bool
  or_stop action r (c, true) = (c, true)
  or_stop action r (c, false) = (persistence_failed o action (o.error c.calls) (stop o r c), false)

  -- The thread of a provider whose instructions are fixed is let go of.
  unfoldable pub reopen : String → String → R → Chat R → Chat R × Bool
  unfolding bound marked config from with_extra
  reopen name was r c =
      let released =
        both (kept (bound name "" (stop o r c)) (stop o r c))
          (λ d. kept (marked name minus_one d) d) in
      then_ok (or_fail o "releasing a provider session whose prompt changed" released) (λ d.
        let e = record d { parked = without name d.parked } in
        recorded o
          (with_extra "why" (str "its system prompt is fixed when the session is opened")
            (with_extra "was" (str was) (from name (config (o.now e.calls) "reopening"))))
          e)

  unfoldable pub set_aside : String → Option ℕ → R → Chat R → Chat R × Bool
  set_aside name epoch r c = elim c.current [
    | none ↦ (stop o r c, true)
    | some signature ↦
        if o.runners.parkable c.calls r
        then (
          record c {
            parked =
                put name
                  (record {
                    runner = r;
                    epoch = epoch;
                    signature = signature;
                    synced = (native c.meta name).1;
                  })
                  c.parked;
          },
          true,
        )
        else (stop o r c, true)
  ]

  unfoldable pub park : R → Chat R → Chat R × Bool
  unfolding bound reopen set_aside
  park r c =
      let name = o.runners.name r in
      let id = o.runners.native_id c.calls r in
      let d = record c { runner_epoch = none } in
      if str_eq id ""
      then set_aside name c.runner_epoch r d
      else if not (o.retunes_instructions name) && prompts_moved c
      then reopen name id r d
      else then_ok (or_stop "saving a provider session id" r (kept (bound name id d) d))
          (set_aside name c.runner_epoch r)

  unfoldable pub caught_up : String → Parked R → R → Chat R → Chat R × Option (R × Option ℕ)
  unfolding marked
  caught_up provider p r c =
      if o.runners.seeded c.calls r
      then taken_back p.epoch r
          (or_stop "saving a provider watermark" r (kept (marked provider (seq c.store) c) c))
      else (c, some (r, p.epoch))

  unfoldable pub told_again : String → Parked R → R × Bool → Chat R → Chat R × Option (R × Option ℕ)
  told_again provider p (r, true) c = caught_up provider p r c
  told_again provider p (r, false) c = (stop o r c, none)

  -- A parked provider, brought up to date in place.
  unfoldable pub unpark : String → Chat R → Chat R × Option (R × Option ℕ)
  unfolding history_for told_again caught_up
  unpark provider c = elim (find provider c.parked) [
    | none ↦ (c, none)
    | some p ↦
        let d = record c { parked = without provider c.parked } in
        if o.runners.alive d.calls p.runner
        then told_again provider p
            (o.runners.catch_up d.calls (history_for provider (succ p.synced) true d) p.runner)
            (called d)
        else (d, none)
  ]

  -- A parked runner whose settings still match, with whether its tuning does.
  unfoldable pub take_parked : String → Signature → Chat R → Chat R × Option (R × (Option ℕ × Bool))
  unfolding unpark
  take_parked provider wanted c = elim (find provider c.parked) [
    | none ↦ (c, none)
    | some p ↦
        if same_config p.signature.config wanted.config
        then with_tuning (same_tuning p.signature wanted) (unpark provider c)
        else (stop o p.runner (record c { parked = without provider c.parked }), none)
  ]

-- ===== src/Meta/Queue.antt =====
-- The queue of accepted messages under each operation.
use mathlib.Core.List.{flatten}
use silicon_omni.Prelude.{
  ℕ, String, ◌≡◌, refl, sym, ap, ◌∙◌, inl, inr, Option, some, List, [], ◌∷◌, ◌++◌, map, any, select,
  subst, Bool-cases, ℤ, none, true, length, length-append, unwrap_or, arith,
}
use silicon_omni.Json.{Value, Fields, nil, arr, insert, of_list}
use silicon_omni.Json.Laws.{or_insert_present}
use silicon_omni.Meta.Load.{PendingMessage, Codec, IsJson, to_value, contains}
use silicon_omni.Meta.{
  Meta, Replacing, replaced, in_pending, if_pending, without, enqueue, retry, complete, reconcile,
  reconcile_found, recover, messages_of, undelivered, commit, open_meta, pending, saved,
  superseding, in_front, forgetting,
}
use silicon_omni.Meta.Own.{IsOwn, IsQueue, pending-IsOwn}
use silicon_omni.Meta.Commit.{IsInStep, Commits, Saves, commit-Commits, commit-replaced}
use silicon_omni.Meta.Messages.{
  in_pending_own, if_pending_own, queued-IsOwn, map-append_value, others, without-map,
  undelivered_messages, undelivered-map, IsQueue-select, undelivered_messages_none, none_delivered,
  unless, ahead, recovered-map, forgetting-IsOwn,
}

module _ (c : Codec) (json : IsJson c) (w : Replacing) (now : String) where
  -- A change of the pending messages alone.
  pending-Commits :
      (change : Fields → Option Fields) (f : List Value → List Value) (meta : Meta)
      (before after : List PendingMessage)
      → IsInStep c meta before
      → change meta.map ≡ in_pending f meta.map
      → f (map to_value before) ≡ map to_value after
      → IsQueue [] after
      → Commits c meta after (commit c w now change meta)
  pending-Commits change f meta before after h e same fresh =
      let next =
        e
        ∙ in_pending_own f meta.map before h.own
        ∙ ap (λ (vs : List Value). some (insert "pending" (arr (of_list vs)) meta.map)) same in
      commit-Commits c json w now change meta before after
        (insert "pending" (arr (of_list (map to_value after))) meta.map) h next
        (queued-IsOwn meta.map before after h.own fresh)

  -- Metadata with one queue does not have a longer one.
  longer :
      (meta : Meta) (queue : List PendingMessage) (p : PendingMessage)
      → IsOwn meta.map queue
      → IsOwn meta.map (queue ++ (p ∷ []))
      → ⊥
  longer meta queue p h k =
      let e : some queue ≡ some (queue ++ (p ∷ [])) =
        sym (pending-IsOwn meta queue h) ∙ pending-IsOwn meta (queue ++ (p ∷ [])) k in
      ground (
        arith,
        ap (λ (q : Option (List PendingMessage)). length (unwrap_or q [])) e,
        length-append queue (p ∷ []),
      )

  -- From metadata in step with its file, and with an id that is not empty and not yet in the
  -- queue, an accepted message stands at the end of the queue, in memory and in the file, which is
  -- there and is read back as the map in memory; or the call fails and the map in memory is as it
  -- was.
  pub enqueue-Commits :
      (id text : String) (meta : Meta) (queue : List PendingMessage)
      → IsInStep c meta queue
      → IsQueue [] (queue ++ (record { id = id; text = text } ∷ []))
      → Saves c meta
          (queue ++ (record { id = id; text = text } ∷ []))
          (enqueue c w now id text meta)
  unfolding enqueue
  enqueue-Commits id text meta queue h fresh =
      let p : PendingMessage = record { id = id; text = text } in
      let commits : Commits c meta (queue ++ (p ∷ [])) (enqueue c w now id text meta) =
        pending-Commits _ (λ vs. vs ++ (to_value p ∷ [])) meta queue (queue ++ (p ∷ [])) h
          (ap (in_pending (λ vs. vs ++ (to_value p ∷ [])))
            (or_insert_present "pending" (arr nil) _ meta.map h.own.pending))
          (sym (map-append_value queue (p ∷ []))) fresh in
      elim commits [
        | inl (e, k, inr filed) ↦ inl (e, k, filed)
        | inl (e, k, inl same) ↦ absurd (
            longer meta queue p h.own
              (subst (λ (m : Meta). IsOwn m.map (queue ++ (p ∷ []))) same k.own))
        | inr f ↦ inr f
      ]

  -- From metadata in step with its file, and with an id that is not empty and not yet in the
  -- queue: once a message was accepted, whoever opens the file finds it at the end of the queue,
  -- behind all that waited before, and no error.
  pub pending-open_meta :
      (id text later : String) (meta : Meta) (queue : List PendingMessage)
      → IsInStep c meta queue
      → IsQueue [] (queue ++ (record { id = id; text = text } ∷ []))
      → (enqueue c w now id text meta).1 ≡ saved
      → let reopened =
          open_meta c true later meta.session_id (enqueue c w now id text meta).0.file in
        (pending reopened ≡ some (queue ++ (record { id = id; text = text } ∷ [])))
        × (reopened.load_error ≡ none)
  unfolding open_meta
  pending-open_meta id text later meta queue h fresh done =
      let r = enqueue c w now id text meta in
      let after : List PendingMessage = queue ++ (record { id = id; text = text } ∷ []) in
      elim (enqueue-Commits id text meta queue h fresh) [
        | inl (e, k, filed) ↦
            let reopened = open_meta c true later meta.session_id r.0.file in
            let same : reopened.map ≡ r.0.map = ground (arith, filed) in
            (
              pending-IsOwn reopened after (subst (λ (m : Fields). IsOwn m after) (sym same) k.own),
              ground (arith, filed),
            )
        | inr (e, k) ↦ absurd (ground (arith, e, done))
      ]

  -- From metadata in step with its file, and with fresh ids, the messages of unfinished turns
  -- stand before all others, in their order, in memory and in the file, which is there then unless
  -- there was nothing to change; or the call fails and the map in memory is as it was.
  pub retry-Commits :
      (fresh : ℕ → String) (turns : List (List String)) (meta : Meta) (queue : List PendingMessage)
      → IsInStep c meta queue
      → IsQueue [] (messages_of fresh 0 (flatten turns) ++ queue)
      → Commits c meta
          (messages_of fresh 0 (flatten turns) ++ queue)
          (retry c w now fresh turns meta)
  unfolding retry
  retry-Commits fresh turns meta queue h unique =
      let ps = messages_of fresh 0 (flatten turns) in
      pending-Commits _ (λ vs. map to_value ps ++ vs) meta queue (ps ++ queue) h refl
        (sym (map-append_value ps queue)) unique

  -- From metadata in step with its file, the delivered message leaves the queue and no other does,
  -- in memory and in the file, which is there then unless there was nothing to change; or the call
  -- fails and the map in memory is as it was.
  pub complete-Commits :
      (id : String) (meta : Meta) (queue : List PendingMessage)
      → IsInStep c meta queue
      → Commits c meta (others id queue) (complete c w now id meta)
  unfolding complete
  complete-Commits id meta queue h =
      pending-Commits _ (without id) meta queue (others id queue) h
        (if_pending_own (without id) meta.map queue h.own) (without-map id queue)
        (IsQueue-select _ [] queue h.own.distinct)

  reconcile_found-Commits :
      (delivered : List String) (meta : Meta) (queue : List PendingMessage)
      → IsInStep c meta queue
      → Commits c meta
          (undelivered_messages delivered queue)
          (reconcile_found c w now delivered meta (some queue))
  unfolding reconcile_found
  reconcile_found-Commits delivered meta queue h =
      let f = select (undelivered delivered) in
      let found =
        pending-Commits (λ m. some (if_pending f m)) f meta queue
          (undelivered_messages delivered queue) h (if_pending_own f meta.map queue h.own)
          (undelivered-map delivered queue) (IsQueue-select _ [] queue h.own.distinct) in
      elim (Bool-cases (any (λ (p : PendingMessage). contains delivered p.id) queue)) [
        | inl e ↦ rw (e, reconcile_found) found
        | inr e ↦
            rw (e, reconcile_found)
              (inl (
                refl,
                subst (λ q. IsInStep c meta q) (sym (undelivered_messages_none delivered queue e))
                    h,
                inl refl,
              ))
      ]

  -- From metadata in step with its file, exactly the delivered messages leave the queue, in memory
  -- and in the file, which is there then unless there was nothing to change, as where none was
  -- delivered; or the call fails and the map in memory is as it was.
  pub reconcile-Commits :
      (delivered : List String) (meta : Meta) (queue : List PendingMessage)
      → IsInStep c meta queue
      → Commits c meta (undelivered_messages delivered queue) (reconcile c w now delivered meta)
  unfolding reconcile
  reconcile-Commits [] meta queue h = inl (
    refl,
    subst (λ q. IsInStep c meta q) (sym (undelivered_messages_none [] queue (none_delivered queue)))
        h,
    inl refl,
  )
  reconcile-Commits (id ∷ delivered) meta queue h =
      rw (pending-IsOwn meta queue h.own) (reconcile_found-Commits (id ∷ delivered) meta queue h)

  -- From metadata in step with its file, and with a fresh id, a recovery puts its message at the
  -- head of the queue and takes the superseded one out, in one change of the memory and the file,
  -- which is there then unless there was nothing to change; or the call fails and the map in memory
  -- is as it was.
  pub recover-Commits :
      (state : Value) (start : Option ℤ) (message : Option PendingMessage) (old : Option String)
      (meta : Meta) (queue : List PendingMessage)
      → IsInStep c meta queue
      → IsQueue [] (ahead message (unless old queue))
      → Commits c meta
          (ahead message (unless old queue))
          (recover c w now state start message old meta)
  unfolding recover
  recover-Commits state start message old meta queue h fresh =
      let base = forgetting start (insert "context_recovery_state" state meta.map) in
      let own = forgetting-IsOwn start state meta.map queue h.own in
      let after = ahead message (unless old queue) in
      let next =
        in_pending_own (λ vs. in_front message (superseding old vs)) base queue own
        ∙ ap (λ (vs : List Value). some (insert "pending" (arr (of_list vs)) base))
            (recovered-map message old queue) in
      commit-Commits c json w now _ meta queue after
        (insert "pending" (arr (of_list (map to_value after))) base) h next
        (queued-IsOwn base queue after own fresh)

module _ (c : Codec) (now : String) where
  -- A message is accepted where the file is replaced.
  pub enqueue-replaced :
      (id text : String) (meta : Meta) (queue : List PendingMessage)
      → IsInStep c meta queue
      → (enqueue c replaced now id text meta).1 ≡ saved
  unfolding enqueue
  enqueue-replaced id text meta queue h =
      let p : PendingMessage = record { id = id; text = text } in
      let f = λ (vs : List Value). vs ++ (to_value p ∷ []) in
      commit-replaced c now _ meta
        (insert "pending" (arr (of_list (f (map to_value queue)))) meta.map) h.sound
        (ap (in_pending f) (or_insert_present "pending" (arr nil) _ meta.map h.own.pending)
          ∙ in_pending_own f meta.map queue h.own)

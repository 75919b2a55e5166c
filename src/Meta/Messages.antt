-- ===== src/Meta/Messages.antt =====
-- The pending messages as a list, under the changes of each operation.
use silicon_omni.Prelude.{
  String, ◌≡◌, refl, ap, Bool, true, false, not, Option, none, some, List, [], ◌∷◌, ◌++◌, map, any,
  select, str_eq, arith, ℤ,
}
use silicon_omni.Json.{Value, Fields, end, arr, get, insert, of_list}
use silicon_omni.Json.Laws.{get-insert}
use silicon_omni.Meta.Load.{PendingMessage, to_value, contains, check_entries}
use silicon_omni.Meta.{
  in_pending, if_pending, without, undelivered, superseding, in_front, forgetting,
}
use silicon_omni.Meta.Own.{IsQueue, IsOwn, to_list-of_list}

pub in_pending_own :
    (change : List Value → List Value) (m : Fields) (queue : List PendingMessage)
    → IsOwn m queue
    → in_pending change m ≡ some (insert "pending" (arr (of_list (change (map to_value queue)))) m)
unfolding in_pending
in_pending_own change m queue h = ground (arith, h.pending, to_list-of_list (map to_value queue))

pub if_pending_own :
    (change : List Value → List Value) (m : Fields) (queue : List PendingMessage)
    → IsOwn m queue
    → some (if_pending change m) ≡ in_pending change m
unfolding if_pending
if_pending_own change m queue h = ground (arith, in_pending_own change m queue h)

-- A new queue in the namespace of the pending messages.
pub queued-IsOwn :
    (m : Fields) (before after : List PendingMessage)
    → IsOwn m before
    → IsQueue [] after
    → IsOwn (insert "pending" (arr (of_list (map to_value after))) m) after
queued-IsOwn m before after h fresh =
    let (ps, there, entries) = h.providers in
    let (ss, set) = h.settings in
    record {
      providers = (ps, simp get-insert there, entries);
      settings = (ss, simp get-insert set);
      pending = simp get-insert refl;
      distinct = fresh;
    }

pub map-append_value :
    (ps qs : List PendingMessage) → map to_value (ps ++ qs) ≡ map to_value ps ++ map to_value qs
map-append_value [] qs = refl
map-append_value (p ∷ ps) qs = ap (λ (r : List Value). to_value p ∷ r) (map-append_value ps qs)

-- The messages but the one with the id `id`.
abbrev pub others : String → List PendingMessage → List PendingMessage
others id = select (λ p. not (str_eq p.id id))

pub without-map :
    (id : String) (ps : List PendingMessage)
    → without id (map to_value ps) ≡ map to_value (others id ps)
unfolding without get
without-map id [] = refl
without-map id (p ∷ ps) = ground (arith, without-map id ps)

abbrev pub undelivered_messages : List String → List PendingMessage → List PendingMessage
undelivered_messages delivered = select (λ p. not (contains delivered p.id))

pub undelivered-map :
    (delivered : List String) (ps : List PendingMessage)
    → select (undelivered delivered) (map to_value ps)
      ≡ map to_value (undelivered_messages delivered ps)
unfolding undelivered get
undelivered-map delivered [] = refl
undelivered-map delivered (p ∷ ps) = ground (arith, undelivered-map delivered ps)

pub IsQueue-fewer :
    (seen fewer : List String) (ps : List PendingMessage)
    → ((id : String) → contains seen id ≡ false → contains fewer id ≡ false)
    → IsQueue seen ps
    → IsQueue fewer ps
IsQueue-fewer seen fewer [] sub h = tt
IsQueue-fewer seen fewer (p ∷ ps) sub h = (
  h.0,
  sub p.id h.1,
  IsQueue-fewer (p.id ∷ seen) (p.id ∷ fewer) ps (λ id k. ground (arith, sub id)) h.2,
)

pub IsQueue-select :
    (keep : PendingMessage → Bool) (seen : List String) (ps : List PendingMessage)
    → IsQueue seen ps
    → IsQueue seen (select keep ps)
IsQueue-select keep seen [] h = tt
IsQueue-select keep seen (p ∷ ps) h =
    let rest = IsQueue-select keep (p.id ∷ seen) ps h.2 in
    let without = IsQueue-fewer (p.id ∷ seen) seen (select keep ps) (λ id k. ground arith) rest in
    elim (keep p)
      as (λ b. IsQueue seen (elim b [ true ↦ p ∷ select keep ps | false ↦ select keep ps ])) [
        | true ↦ (h.0, h.1, rest)
        | false ↦ without
      ]

pub undelivered_messages_none :
    (delivered : List String) (ps : List PendingMessage)
    → any (λ (p : PendingMessage). contains delivered p.id) ps ≡ false
    → undelivered_messages delivered ps ≡ ps
undelivered_messages_none delivered [] h = refl
undelivered_messages_none delivered (p ∷ ps) h =
    ground (arith, undelivered_messages_none delivered ps)

pub none_delivered :
    (ps : List PendingMessage) → any (λ (p : PendingMessage). contains [] p.id) ps ≡ false
none_delivered [] = refl
none_delivered (p ∷ ps) = none_delivered ps

-- The queue after a recovery: the message of the recovery, and the old ones but the superseded.
abbrev pub unless : Option String → List PendingMessage → List PendingMessage
unless none ps = ps
unless (some id) ps = others id ps

abbrev pub ahead : Option PendingMessage → List PendingMessage → List PendingMessage
ahead none ps = ps
ahead (some p) ps = p ∷ ps

pub recovered-map :
    (message : Option PendingMessage) (old : Option String) (ps : List PendingMessage)
    → in_front message (superseding old (map to_value ps))
      ≡ map to_value (ahead message (unless old ps))
unfolding in_front superseding
recovered-map none none ps = refl
recovered-map (some p) none ps = refl
recovered-map none (some id) ps = without-map id ps
recovered-map (some p) (some id) ps = ap (λ (r : List Value). to_value p ∷ r) (without-map id ps)

pub forgetting-IsOwn :
    (start : Option ℤ) (state : Value) (m : Fields) (queue : List PendingMessage)
    → IsOwn m queue
    → IsOwn (forgetting start (insert "context_recovery_state" state m)) queue
unfolding forgetting check_entries
forgetting-IsOwn none state m queue h =
    let (ps, there, entries) = h.providers in
    let (ss, set) = h.settings in
    record {
      providers = (ps, simp get-insert there, entries);
      settings = (ss, simp get-insert set);
      pending = simp get-insert h.pending;
      distinct = h.distinct;
    }
forgetting-IsOwn (some since) state m queue h =
    let (ss, set) = h.settings in
    record {
      providers = (end, simp get-insert refl, refl);
      settings = (ss, simp get-insert set);
      pending = simp get-insert h.pending;
      distinct = h.distinct;
    }

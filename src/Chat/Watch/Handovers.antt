-- ===== src/Chat/Watch/Handovers.antt =====
-- Invariants of the conductor, where messages are handed over, for any fuel.
use silicon_omni.Prelude.{
  ℕ, zero, suc, String, max_ℤ, ◌+◌, ◌≡◌, refl, sym, ap, inl, inr, Bool, true, false, not, ◌||◌,
  Option, none, some, List, [], ◌∷◌, ◌++◌, length, str_eq, arith, if-cases, option-cases,
  list-cases,
}
use silicon_omni.Result.{Result, ok, err}
use silicon_omni.Events.{Event}
use silicon_omni.Events.Kind
use silicon_omni.Meta.{Status, saved, failed, panicked, Meta}
use silicon_omni.Meta.Load.{PendingMessage}
use silicon_omni.Store.{Store}
use silicon_omni.Runner.{Delivery, immediate, echoed, next_turn}
use silicon_omni.Chat.{Chat, Outside}
use silicon_omni.Chat.Recording.{
  then_do, then_ok, record_event, appended, running, alive, called, or_fail, kept,
}
use silicon_omni.Chat.Choosing.{stale}
use silicon_omni.Chat.Turns.{complete_message, drop_first}
use silicon_omni.Chat.Handing.{
  held, await, retired, in_turn_of, count_later, took, deliver, too_long, blame, kind_of,
  refused_plain, refused, sent, flush_loop, nothing_runs, flush, hand_over, opening,
}
use silicon_omni.Chat.Watch.{Same, Watch, Ends}
use silicon_omni.Chat.Watch.Rules.{
  same, same_trans, same_called, Kept, Gives, then_do-Kept, recorded-Good, record_event-Gives,
  blocked-Kept, Gives-live, Gives-Kept,
}
use silicon_omni.Chat.Watch.Launches.{same_remember}
use silicon_omni.Chat.Watch.Failures.{failed-Kept, unauthenticated-Kept}
use silicon_omni.Chat.Watch.Recoveries.{
  recover_context-Kept, recovery_ended-Kept, recovery_failed-Kept,
}

module _ {R : Type 0} (o : Outside R) (w : Watch o) where
  live : (c d : Chat R) → Same c d → w.Live c → w.Live d
  live c d = w.live_same c d

  -- What holds after an event of the log that is saved also says that no queue changed.
  abbrev pub Queued : Chat R → Chat R × Option Event → Type 0
  Queued c (d, none) = Kept o w d
  Queued c (d, some event) = w.Live d × (d.outbox ≡ c.outbox) × (d.awaiting ≡ c.awaiting)

  pub record_event-Queued :
      (event : Event) (c : Chat R) → w.Live c → Queued c (record_event o event c)
  unfolding record_event appended
  record_event-Queued event c h = go _ (record_event-Gives o w event c h)
    where
      go : (r : Store × Option Event) → Gives o w (appended o c r) → Queued c (appended o c r)
      go (store, none) k = Gives-Kept o w _ _ k
      go (store, some e) k = (Gives-live o w _ e k, refl, refl)

  same_counted : (later : Bool) (c : Chat R) → Same c (count_later later c)
  same_counted true c = (refl, refl, refl, refl, refl, refl, refl, refl, omega arith, refl)
  same_counted false c = same c

  same_in_turn :
      (event : Event) (later : Bool) (c : Chat R) → Same c (count_later later (in_turn_of event c))
  same_in_turn event later c =
      same_trans c (in_turn_of event c) (count_later later (in_turn_of event c))
        (same_remember o w (record c { turn = max_ℤ c.turn event.turn }))
        (same_counted later (in_turn_of event c))

  -- The message leaves the outbox, and only it.
  abbrev pub Delivered : List PendingMessage → Chat R × Bool → Type 0
  Delivered messages (d, true) = w.Live d × (d.outbox ≡ messages)
  Delivered messages (d, false) = Kept o w d

  retired-Delivered :
      (message : PendingMessage) (messages : List PendingMessage) (later : Bool) (action : String)
      (c : Chat R) (r : Meta × Status)
      → c.outbox ≡ message ∷ messages
      → Ends (λ d. w.Live (record d { outbox = messages })) w.Torn (kept r c)
      → Delivered messages
          (then_ok (or_fail o action (kept r c)) (λ d. (retired message later d, true)))
  unfolding kept or_fail then_ok Ends
  retired-Delivered message messages later action c (m, saved) e h =
      let p : messages ≡ drop_first c.outbox = ap drop_first (sym e) in
      let d = called (record c { meta = m }) in
      (
        live (record d { outbox = messages }) _
            (refl, refl, refl, refl, refl, refl, p, refl, omega arith, refl) h,
        sym p,
      )
  retired-Delivered message messages later action c (m, failed) e h = inr (w.gives_up action _ _ h)
  retired-Delivered message messages later action c (m, panicked) e h =
      inr (w.gives_up action _ _ h)

  took-Delivered :
      (message : PendingMessage) (messages : List PendingMessage) (later : Bool) (c : Chat R)
      (r : Chat R × Option Event)
      → c.outbox ≡ message ∷ messages
      → Queued c r
      → Delivered messages (took o message later r)
  unfolding took complete_message
  took-Delivered message messages later c (d, none) e h = h
  took-Delivered message messages later c (d, some event) e (h, out, wait) =
      let x = count_later later (in_turn_of event d) in
      let s = same_in_turn event later d in
      let q : x.outbox ≡ message ∷ messages = ground (arith, s, out, e) in
      retired-Delivered message messages later _ x _ q
        (w.delivers message messages x (live d x s h) q)

  pub deliver-Delivered :
      (message : PendingMessage) (messages : List PendingMessage) (delivery : Delivery) (c : Chat R)
      → w.Live c
      → c.outbox ≡ message ∷ messages
      → Delivered messages (deliver o message delivery c)
  unfolding deliver
  deliver-Delivered message messages delivery c h e =
      took-Delivered message messages _ c _ e
        (record_event-Queued (opening o message delivery c) c h)

  then_rest :
      (rest : Chat R → Chat R) (messages : List PendingMessage) (p : Chat R × Bool)
      → ((d : Chat R) → w.Live d → d.outbox ≡ messages → Kept o w (rest d))
      → Delivered messages p
      → Kept o w (then_do p rest)
  unfolding then_do
  then_rest rest messages (d, true) k (h, e) = k d h e
  then_rest rest messages (d, false) k h = h

  module _ (flush : Chat R → Chat R) (again : (d : Chat R) → w.Live d → Kept o w (flush d)) where
    too_long-Kept : (c : Chat R) → w.Live c → Kept o w (too_long o flush c)
    too_long-Kept c h =
        let d = record c { turn_failed = some Kind.context_limit } in
        let k : w.Live d = live c d (same c) h in
        option-cases (Kept o w) c.recovery
          (λ e.
            if-cases (Kept o w) c.in_turn (λ f. inl k)
              (λ f. recover_context-Kept o w flush again false c h))
          (λ r e. recovery_ended-Kept o w flush again _ r d k)

    blame-Kept :
        (name kind : String) (p : Chat R × Option Event)
        → Gives o w p
        → Kept o w (blame o flush name kind p)
    unfolding blame
    blame-Kept name kind (c, none) h = Gives-Kept o w _ c h
    blame-Kept name kind (c, some event) h =
        let k = Gives-live o w c event h in
        if-cases (Kept o w) (str_eq kind Kind.auth)
          (λ e. unauthenticated-Kept o w flush again event c k)
          (λ e. failed-Kept o w flush again name kind c k)

    refused_plain-Kept :
        (name why : String) (c : Chat R) → w.Live c → Kept o w (refused_plain o flush name why c)
    unfolding refused_plain
    refused_plain-Kept name why c h =
        option-cases (Kept o w) c.recovery
          (λ e. blame-Kept name (kind_of o why) _ (record_event-Gives o w _ c h))
          (λ r e. recovery_failed-Kept o w why c h)

    refused-Kept : (why : String) (c : Chat R) → w.Live c → Kept o w (refused o flush why c)
    unfolding refused
    refused-Kept why c h =
        if-cases (Kept o w) (str_eq (kind_of o why) Kind.context_limit)
          (λ e. then_do-Kept o w _ _ (recorded-Good o w _ c h) too_long-Kept)
          (λ e. refused_plain-Kept (running o c.runner) why c h)

    sent-Kept :
        (rest : Chat R → Chat R) (message : PendingMessage) (messages : List PendingMessage)
        (p : R × Result String Delivery) (c : Chat R)
        → ((d : Chat R) → w.Live d → d.outbox ≡ messages → Kept o w (rest d))
        → w.Live c
        → c.outbox ≡ message ∷ messages
        → Kept o w (sent o flush rest message p c)
    unfolding sent
    sent-Kept rest message messages (r, ok echoed) c k h e =
        let a = record c { runner = some r } in
        let x = record a { awaiting = a.awaiting ++ (message ∷ []); outbox = messages } in
        let p : messages ≡ drop_first c.outbox = ap drop_first (sym e) in
        k (await message a)
          (live x (await message a) (refl, refl, refl, refl, refl, refl, p, refl, omega arith, refl)
            (w.awaits message messages a (live c a (same c) h) e))
          (sym p)
    sent-Kept rest message messages (r, ok immediate) c k h e = then_rest rest messages _ k (
        deliver-Delivered message messages immediate _
          (live c (record c { runner = some r }) (same c) h) e)
    sent-Kept rest message messages (r, ok next_turn) c k h e = then_rest rest messages _ k (
        deliver-Delivered message messages next_turn _
          (live c (record c { runner = some r }) (same c) h) e)
    sent-Kept rest message messages (r, err why) c k h e =
        let d = record c { runner = some r } in refused-Kept why d (live c d (same c) h)

    flush_loop-Kept :
        (messages : List PendingMessage) (c : Chat R)
        → w.Live c
        → c.outbox ≡ messages
        → Kept o w (flush_loop o flush messages c)
    unfolding flush_loop
    flush_loop-Kept [] c h e = inl h
    flush_loop-Kept (message ∷ messages) c h e =
        if-cases (Kept o w) (held c.recovery message) (λ f. inl h)
          (λ f.
            option-cases (Kept o w) c.runner (λ g. inl h)
              (λ r g.
                sent-Kept (flush_loop o flush messages) message messages
                  (o.runners.send c.calls message.text r) (called c) (flush_loop-Kept messages)
                  (live c (called c) (same_called c) h) e))

  nothing_runs-Kept : (c : Chat R) → w.Live c → Kept o w (nothing_runs o c)
  nothing_runs-Kept c h =
      list-cases (Kept o w) c.outbox (λ e. inl h)
        (λ m ms e. if-cases (Kept o w) (alive o c) (λ f. inl h) (λ f. blocked-Kept o w _ c h))

  pub flush-Kept : (n : ℕ) (c : Chat R) → w.Live c → Kept o w (flush o n c)
  unfolding flush
  flush-Kept zero c h = inl h
  flush-Kept (suc n) c h =
      if-cases (Kept o w) (not (alive o c) || stale o c) (λ e. nothing_runs-Kept c h)
        (λ e. flush_loop-Kept (flush o n) (flush-Kept n) c.outbox c h refl)

  pub hand_over-Kept : (c : Chat R) → w.Live c → Kept o w (hand_over o c)
  unfolding hand_over
  hand_over-Kept c h = flush-Kept (length c.providers + 6) c h

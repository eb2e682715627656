-- ===== src/Trading/MarketDataConsumer/Recovery.antt =====
-- Recovery from a gap: a whole snapshot cycle and the incremental messages that wait.
use nano_trade.Base.{
  ℕ, suc, ◌+◌, ◌^◌, ◌≤◌, ◌<◌, ◌≡◌, refl, ◌∙◌, sym, ap, ap₂, arith, true, false, ==-self, ==-ne,
  ltb_self, if◌then◌else◌, ltb-lt, some, List, [], ◌∷◌, ◌++◌, append_assoc, append-nil,
}
use nano_trade.Base.Lists.{length, length-append, All, All-append}
use nano_trade.Common.LfQueue.{pushes}
use nano_trade.Common.Types.{to_u64}
use nano_trade.Exchange.Messages.{MeMarketUpdate, MdpMarketUpdate}
use nano_trade.Trading.MarketDataConsumer.{
  MarketDataConsumer, QueuedMarketUpdates, contains, assign, is_start, is_end, keep_event,
  snapshot_events, incremental_events, last_update, publish_events, sync_snapshot,
  check_snapshot_sync, queue_message, store_message, receive, receive_all, recv_callback,
}
use nano_trade.Trading.MarketDataConsumer.Delivery.{numbered}

-- The queue that holds the updates under the numbers from `k` on.
abbrev pub entries : ℕ → List MeMarketUpdate → QueuedMarketUpdates
entries k [] = []
entries k (u ∷ us) = (k, u) ∷ entries (suc k) us

-- An update of the books, and no mark of a snapshot.
abbrev pub IsEvent : MeMarketUpdate → Type 0
IsEvent u = (is_start u ≡ false) × (is_end u ≡ false)

contains-entries :
    (j k : ℕ) (us : List MeMarketUpdate) → k + length us ≤ j → contains j (entries k us) ≡ false
unfolding contains
contains-entries j k [] h = refl
contains-entries j k (u ∷ us) h =
    rw (==-ne k j (omega arith), contains-entries j (suc k) us (omega arith)) refl

assign-entries :
    (j k : ℕ) (us : List MeMarketUpdate) (u : MeMarketUpdate)
    → k + length us ≡ j
    → assign j u (entries k us) ≡ entries k (us ++ u ∷ [])
unfolding assign
assign-entries j k [] u h = ap (λ n. (n, u) ∷ []) (omega arith)
assign-entries j k (v ∷ us) u h = rw (assign-entries j (suc k) us u (omega arith)) (ground arith)

last_update-entries :
    (k : ℕ) (x : MeMarketUpdate) (us : List MeMarketUpdate) (u : MeMarketUpdate)
    → last_update x (entries k (us ++ u ∷ [])) ≡ u
last_update-entries k x [] u = refl
last_update-entries k x (v ∷ us) u = last_update-entries (suc k) v us u

snapshot_events-entries :
    (k : ℕ) (us : List MeMarketUpdate) → All IsEvent us → snapshot_events k (entries k us) ≡ some us
unfolding snapshot_events
snapshot_events-entries k [] e = refl
snapshot_events-entries k (u ∷ us) e =
    rw (==-self k, snapshot_events-entries (suc k) us e.1, e.0.0, e.0.1) refl

-- The last mark of the snapshot is no event.
snapshot_events-end :
    (k : ℕ) (us : List MeMarketUpdate) (u : MeMarketUpdate)
    → All IsEvent us
    → is_end u ≡ true
    → snapshot_events k (entries k (us ++ u ∷ [])) ≡ some us
unfolding snapshot_events
snapshot_events-end k [] u e h = ground arith
snapshot_events-end k (v ∷ us) u e h =
    rw (==-self k, snapshot_events-end (suc k) us u e.1 h, e.0.0, e.0.1) refl

incremental_events-old :
    (n : ℕ) (old q : QueuedMarketUpdates)
    → All (λ x. x.0 < n) old
    → incremental_events n (old ++ q) ≡ incremental_events n q
unfolding incremental_events
incremental_events-old n [] q h = refl
incremental_events-old n ((k, u) ∷ old) q h =
    rw (ltb-lt k n h.0) (incremental_events-old n old q h.1)

incremental_events-entries :
    (n : ℕ) (us : List MeMarketUpdate)
    → All IsEvent us
    → n + length us < 2 ^ 64
    → incremental_events n (entries n us) ≡ (n + length us, some us)
unfolding incremental_events
incremental_events-entries n [] e h = ap (λ k. (k, some [])) (omega arith)
incremental_events-entries n (u ∷ us) e h =
    let counted : to_u64 (n + 1) ≡ suc n = omega arith in
    rw
      (
        ltb_self n,
        ==-self n,
        counted,
        incremental_events-entries (suc n) us e.1 (omega arith),
        e.0.0,
        e.0.1,
      )
      (ap (λ k. (k, some (u ∷ us))) (omega arith))

-- The consumer of a recovery in which the first messages of a snapshot cycle have come.
abbrev held : MarketDataConsumer → MeMarketUpdate → List MeMarketUpdate → MarketDataConsumer
held c start seen = record c { snapshot_queued_msgs = entries 0 (start ∷ seen) }

-- The consumer after the recovery.
abbrev pub recovered :
    MarketDataConsumer → (last : ℕ) → (body more : List MeMarketUpdate) → MarketDataConsumer
recovered c last body more = record {
  next_exp_inc_seq_num = last + 1 + length more;
  incoming_md_updates = pushes c.incoming_md_updates (body ++ more);
  in_recovery = false;
  snapshot_queued_msgs = [];
  incremental_queued_msgs = [];
}

module _ (c : MarketDataConsumer) (start : MeMarketUpdate) where
  check-more :
      (seen : List MeMarketUpdate) (u : MeMarketUpdate)
      → is_start start ≡ true
      → All IsEvent seen
      → IsEvent u
      → check_snapshot_sync (held c start (seen ++ u ∷ [])) ≡ held c start (seen ++ u ∷ [])
  unfolding check_snapshot_sync sync_snapshot snapshot_events
  check-more seen u s e f =
      rw
        (
          s,
          last_update-entries 1 start seen u,
          snapshot_events-entries 1 (seen ++ u ∷ []) (All-append IsEvent seen (u ∷ []) e (f, tt)),
          f.1,
        )
        refl

  check-end :
      (old : QueuedMarketUpdates) (seen more : List MeMarketUpdate) (u : MeMarketUpdate)
      → is_start start ≡ true
      → is_end u ≡ true
      → All IsEvent seen
      → All IsEvent more
      → c.incremental_queued_msgs ≡ old ++ entries (u.order_id + 1) more
      → All (λ x. x.0 < u.order_id + 1) old
      → u.order_id + 1 + length more < 2 ^ 64
      → check_snapshot_sync (held c start (seen ++ u ∷ [])) ≡ recovered c u.order_id seen more
  unfolding check_snapshot_sync sync_snapshot snapshot_events
  check-end old seen more u s f e e' q o n =
      let kept : keep_event start seen ≡ seen = rw s refl in
      let waiting : incremental_events (to_u64 (u.order_id + 1)) c.incremental_queued_msgs
          ≡ (u.order_id + 1 + length more, some more) =
        ap₂ incremental_events (omega arith) q
        ∙ incremental_events-old (u.order_id + 1) old _ o
        ∙ incremental_events-entries (u.order_id + 1) more e' n in
      rw (s, last_update-entries 1 start seen u, snapshot_events-end 1 seen u e f, f)
        (ap₂ (publish_events (held c start (seen ++ u ∷ []))) kept waiting)

  store-next :
      (seen : List MeMarketUpdate) (u : MeMarketUpdate)
      → store_message
          (held c start seen)
          true
          (record { seq_num = suc (length seen); me_market_update = u })
        ≡ held c start (seen ++ u ∷ [])
  unfolding store_message
  store-next seen u = rw (contains-entries (suc (length seen)) 0 (start ∷ seen) (omega arith)) (
      ap (λ q. record c { snapshot_queued_msgs = q })
        (assign-entries (suc (length seen)) 0 (start ∷ seen) u (omega arith)))

  receive-held :
      (d : MarketDataConsumer) (m : MdpMarketUpdate)
      → d.in_recovery ≡ true
      → receive true d m ≡ check_snapshot_sync (store_message d true m)
  unfolding receive queue_message
  receive-held d m r = ground arith

  cycle-from :
      (rest seen : List MeMarketUpdate) (old : QueuedMarketUpdates) (more : List MeMarketUpdate)
      (u : MeMarketUpdate)
      → c.in_recovery ≡ true
      → is_start start ≡ true
      → is_end u ≡ true
      → All IsEvent seen
      → All IsEvent rest
      → All IsEvent more
      → c.incremental_queued_msgs ≡ old ++ entries (u.order_id + 1) more
      → All (λ x. x.0 < u.order_id + 1) old
      → u.order_id + 1 + length more < 2 ^ 64
      → receive_all true (held c start seen) (numbered (suc (length seen)) (rest ++ u ∷ []))
        ≡ recovered c u.order_id (seen ++ rest) more
  unfolding receive_all
  cycle-from [] seen old more u r s f e g e' q o n =
      receive-held (held c start seen)
        (record { seq_num = suc (length seen); me_market_update = u }) r
      ∙ ap check_snapshot_sync (store-next seen u)
      ∙ check-end old seen more u s f e e' q o n
      ∙ ap (λ us. recovered c u.order_id us more) (sym (append-nil seen))
  cycle-from (v ∷ rest) seen old more u r s f e g e' q o n =
      let taken : receive true (held c start seen)
            (record { seq_num = suc (length seen); me_market_update = v })
          ≡ held c start (seen ++ v ∷ []) =
        receive-held (held c start seen)
          (record { seq_num = suc (length seen); me_market_update = v }) r
        ∙ ap check_snapshot_sync (store-next seen v)
        ∙ check-more seen v s e g.0 in
      ap (λ d. receive_all true d (numbered (suc (suc (length seen))) (rest ++ u ∷ []))) taken
      ∙ ap
          (λ k.
            receive_all true (held c start (seen ++ v ∷ [])) (numbered (suc k) (rest ++ u ∷ [])))
          (omega (arith, length-append seen (v ∷ [])))
      ∙ cycle-from rest (seen ++ v ∷ []) old more u r s f
          (All-append IsEvent seen (v ∷ []) e (g.0, tt)) g.1 e' q o n
      ∙ ap (λ us. recovered c u.order_id us more) (append_assoc seen (v ∷ []) rest)

  check-start :
      is_start start ≡ true
      → is_end start ≡ false
      → check_snapshot_sync (held c start []) ≡ held c start []
  unfolding check_snapshot_sync sync_snapshot snapshot_events
  check-start s f = rw (s, f) refl

  start-end : is_start start ≡ true → is_end start ≡ false
  start-end s = ground arith

  store-first :
      c.snapshot_queued_msgs ≡ []
      → store_message c true (record { seq_num = 0; me_market_update = start }) ≡ held c start []
  unfolding store_message
  store-first empty =
      ap (λ q. record c { snapshot_queued_msgs = assign 0 start (if contains 0 q then [] else q) })
        empty

  recovering :
      (ms : List MdpMarketUpdate)
      → c.in_recovery ≡ true
      → recv_callback true c ms ≡ receive_all true c ms
  unfolding recv_callback
  recovering ms r = ground arith

  -- A consumer in recovery that has seen no snapshot message, and whose incremental messages are
  -- old ones and a gapless run, below 2 ^ 64, from the one after the snapshot: a whole snapshot
  -- cycle ends the recovery. The trade engine gets the events of the snapshot and then those of the
  -- run, and the next incremental message expected is the one after them.
  pub recv_callback-recovers :
      (body : List MeMarketUpdate) (old : QueuedMarketUpdates) (more : List MeMarketUpdate)
      (end : MeMarketUpdate)
      → c.in_recovery ≡ true
      → c.snapshot_queued_msgs ≡ []
      → is_start start ≡ true
      → is_end end ≡ true
      → All IsEvent body
      → All IsEvent more
      → c.incremental_queued_msgs ≡ old ++ entries (end.order_id + 1) more
      → All (λ x. x.0 < end.order_id + 1) old
      → end.order_id + 1 + length more < 2 ^ 64
      → recv_callback true c (numbered 0 (start ∷ body ++ end ∷ []))
        ≡ recovered c end.order_id body more
  unfolding receive_all
  recv_callback-recovers body old more end r empty s f e e' q o n =
      let taken : receive true c (record { seq_num = 0; me_market_update = start })
          ≡ held c start [] =
        receive-held c (record { seq_num = 0; me_market_update = start }) r
        ∙ ap check_snapshot_sync (store-first empty)
        ∙ check-start s (start-end s) in
      let later = numbered 1 (body ++ end ∷ []) in
      recovering (record { seq_num = 0; me_market_update = start } ∷ later) r
      ∙ ap (λ d. receive_all true d later) taken
      ∙ cycle-from body [] old more end r s f tt e e' q o n

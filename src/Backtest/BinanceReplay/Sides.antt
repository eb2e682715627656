-- ===== src/Backtest/BinanceReplay/Sides.antt =====
-- The made-up orders of the two sides.
use nano_trade.Base.{
  ℕ, ◌+◌, ◌<◌, ◌≤◌, ◌≡◌, ◌≢◌, ◌⊎◌, inl, inr, refl, sym, ap, subst₂, update_self, ◌∙◌, subst, arith,
  true, false, not, ◌||◌, Bool-cases, update,
}
use mathlib.Core.Bool.{true≢false}
use nano_trade.Base.Int.{ℤ, eqb_ℤ}
use nano_trade.Common.Types.{me_max_order_ids, price_invalid, to_u64}
use nano_trade.Exchange.Messages.{MeMarketUpdate, MdpMarketUpdate}
use nano_trade.Backtest.Stream.{
  is_change, Live, after, IsStream, final, next_num, IsStream-snoc, final-snoc, next_num-snoc,
  no_orders,
}
use nano_trade.Backtest.BinanceReplay.{
  BinanceReplay, max_oid, push, oid_after, cancel_bid, add_bid, cancel_ask, add_ask,
}

abbrev pub live : BinanceReplay → Live
live s = final no_orders s.emitted

pub record IsSent (s : BinanceReplay) : Type 0 where
  pub stream : IsStream is_change 1 no_orders s.emitted
  pub number : next_num 1 s.emitted ≡ s.seq_num

module _ (s : BinanceReplay) (u : MeMarketUpdate) where
  pub push-live : live (push s u) ≡ after (live s) u
  unfolding push
  push-live = final-snoc no_orders s.emitted (record { seq_num = s.seq_num; me_market_update = u })

  pub push-IsSent :
      IsSent s
      → u.order_id < me_max_order_ids
      → (not (is_change u.type) || live s u.order_id) ≡ true
      → IsSent (push s u)
  unfolding push
  push-IsSent v h l =
      let m : MdpMarketUpdate = record { seq_num = s.seq_num; me_market_update = u } in
      record {
        stream = IsStream-snoc is_change 1 no_orders s.emitted m v.stream (sym v.number, h, l, tt);
        number = next_num-snoc 1 s.emitted m ∙ ap (λ n. to_u64 (n + 1)) v.number;
      }

-- A side that has been quoted has a live order, whose number has been given out.
abbrev pub IsOpen : Live → (next_oid : ℕ) → (best : ℤ) (oid : ℕ) → Type 0
IsOpen f next_oid best oid = (eqb_ℤ best price_invalid ≡ true) ⊎ ((f oid ≡ true) × (oid < next_oid))

pub record IsSided (s : BinanceReplay) : Type 0 where
  pub sent : IsSent s
  pub bid : IsOpen (live s) s.next_oid s.best_bid s.bid_oid
  pub ask : IsOpen (live s) s.next_oid s.best_ask s.ask_oid
  pub apart :
      (eqb_ℤ s.best_bid price_invalid ≡ true)
      ⊎ ((eqb_ℤ s.best_ask price_invalid ≡ true) ⊎ (s.bid_oid ≢ s.ask_oid))

-- The order of the bid has gone.
pub record NoBid (n : ℕ) (s : BinanceReplay) : Type 0 where
  pub sent : IsSent s
  pub ask : IsOpen (live s) s.next_oid s.best_ask s.ask_oid
  pub next : s.next_oid ≡ n

pub record NoAsk (n : ℕ) (s : BinanceReplay) : Type 0 where
  pub sent : IsSent s
  pub bid : IsOpen (live s) s.next_oid s.best_bid s.bid_oid
  pub next : s.next_oid ≡ n

off-stays : (f : Live) (o k : ℕ) → k ≢ o → f k ≡ true → update f o false k ≡ true
off-stays f o k n l = ground (arith, n, l)

on-stays : (f : Live) (o k : ℕ) → f k ≡ true → update f o true k ≡ true
on-stays f o k l = ground (arith, l)

module _ (f : Live) (next oid o : ℕ) (best : ℤ) where
  cancelled-IsOpen :
      IsOpen f next best oid
      → (eqb_ℤ best price_invalid ≡ true) ⊎ (oid ≢ o)
      → IsOpen (update f o false) next best oid
  cancelled-IsOpen (inl e) a = inl e
  cancelled-IsOpen (inr (l, b)) (inl e) = inl e
  cancelled-IsOpen (inr (l, b)) (inr n) = inr (off-stays f o oid n l, b)

  added-IsOpen : IsOpen f next best oid → IsOpen (update f o true) (next + 1) best oid
  added-IsOpen (inl e) = inl e
  added-IsOpen (inr (l, b)) = inr (on-stays f o oid l, omega (arith, b))

module _ (s : BinanceReplay) (v : IsSided s) (room : s.next_oid < max_oid) where
  pub cancel_bid-NoBid : NoBid s.next_oid (cancel_bid s)
  unfolding cancel_bid push
  cancel_bid-NoBid = elim (Bool-cases (eqb_ℤ s.best_bid price_invalid)) [
    | inl e ↦ rw e (record { sent = v.sent; ask = v.ask; next = refl })
    | inr e ↦ elim v.bid [
      | inl c ↦ absurd (true≢false (sym c ∙ e))
      | inr (l, b) ↦ rw e (record {
        sent = push-IsSent s _ v.sent (omega (arith, b, room)) l;
        ask =
            subst (λ f. IsOpen f s.next_oid s.best_ask s.ask_oid) (sym (push-live s _))
              (cancelled-IsOpen (live s) s.next_oid s.ask_oid s.bid_oid s.best_ask v.ask
                (ask_apart e v.apart));
        next = refl;
      })
    ]
  ]
    where
      ask_apart :
          eqb_ℤ s.best_bid price_invalid ≡ false
          → (eqb_ℤ s.best_bid price_invalid ≡ true)
            ⊎ ((eqb_ℤ s.best_ask price_invalid ≡ true) ⊎ (s.bid_oid ≢ s.ask_oid))
          → (eqb_ℤ s.best_ask price_invalid ≡ true) ⊎ (s.ask_oid ≢ s.bid_oid)
      ask_apart e (inl c) = absurd (true≢false (sym c ∙ e))
      ask_apart e (inr (inl c)) = inl c
      ask_apart e (inr (inr n)) = inr (λ q. n (sym q))

  pub cancel_ask-NoAsk : NoAsk s.next_oid (cancel_ask s)
  unfolding cancel_ask push
  cancel_ask-NoAsk = elim (Bool-cases (eqb_ℤ s.best_ask price_invalid)) [
    | inl e ↦ rw e (record { sent = v.sent; bid = v.bid; next = refl })
    | inr e ↦ elim v.ask [
      | inl c ↦ absurd (true≢false (sym c ∙ e))
      | inr (l, b) ↦ rw e (record {
        sent = push-IsSent s _ v.sent (omega (arith, b, room)) l;
        bid =
            subst (λ f. IsOpen f s.next_oid s.best_bid s.bid_oid) (sym (push-live s _))
              (cancelled-IsOpen (live s) s.next_oid s.bid_oid s.ask_oid s.best_bid v.bid
                (bid_apart e v.apart));
        next = refl;
      })
    ]
  ]
    where
      bid_apart :
          eqb_ℤ s.best_ask price_invalid ≡ false
          → (eqb_ℤ s.best_bid price_invalid ≡ true)
            ⊎ ((eqb_ℤ s.best_ask price_invalid ≡ true) ⊎ (s.bid_oid ≢ s.ask_oid))
          → (eqb_ℤ s.best_bid price_invalid ≡ true) ⊎ (s.bid_oid ≢ s.ask_oid)
      bid_apart e (inl c) = inl c
      bid_apart e (inr (inl c)) = absurd (true≢false (sym c ∙ e))
      bid_apart e (inr (inr n)) = inr n

-- At most one number has been given out since there were `n`.
pub record IsMoved (n : ℕ) (s : BinanceReplay) : Type 0 where
  pub sided : IsSided s
  pub next : s.next_oid ≤ n + 1

oid_after-next : (n : ℕ) → n < max_oid → oid_after n ≡ n + 1
unfolding oid_after
oid_after-next n h = ground (arith, h)

IsOpen-apart :
    (f : Live) (next : ℕ) (best : ℤ) (oid : ℕ)
    → IsOpen f next best oid
    → (eqb_ℤ best price_invalid ≡ true) ⊎ (oid ≢ next)
IsOpen-apart f next best oid (inl e) = inl e
IsOpen-apart f next best oid (inr (l, b)) = inr (λ q. omega (arith, q, b))

module _ (n : ℕ) (s : BinanceReplay) (price : ℤ) (room : n < max_oid) where
  pub add_bid-IsMoved : NoBid n s → IsMoved n (add_bid s price)
  unfolding add_bid push
  add_bid-IsMoved v =
      let next : oid_after s.next_oid ≡ s.next_oid + 1 =
        oid_after-next s.next_oid (omega (arith, v.next, room)) in
      record {
        sided = record {
          sent =
              push-IsSent
                (record s {
                  bid_oid = s.next_oid;
                  next_oid = oid_after s.next_oid;
                  best_bid = price;
                })
                _ (record { stream = v.sent.stream; number = v.sent.number })
                (omega (arith, v.next, room)) refl;
          bid = inr (
            ap (λ f. f s.next_oid) (push-live s _) ∙ update_self (live s) s.next_oid true,
            omega (arith, next),
          );
          ask =
              subst₂ (λ f m. IsOpen f m s.best_ask s.ask_oid) (sym (push-live s _)) (sym next)
                (added-IsOpen (live s) s.next_oid s.ask_oid s.next_oid s.best_ask v.ask);
          apart = elim (IsOpen-apart (live s) s.next_oid s.best_ask s.ask_oid v.ask) [
            | inl e ↦ inr (inl e)
            | inr q ↦ inr (inr (λ e. q (sym e)))
          ];
        };
        next = omega (arith, next, v.next);
      }

  pub add_ask-IsMoved : NoAsk n s → IsMoved n (add_ask s price)
  unfolding add_ask push
  add_ask-IsMoved v =
      let next : oid_after s.next_oid ≡ s.next_oid + 1 =
        oid_after-next s.next_oid (omega (arith, v.next, room)) in
      record {
        sided = record {
          sent =
              push-IsSent
                (record s {
                  ask_oid = s.next_oid;
                  next_oid = oid_after s.next_oid;
                  best_ask = price;
                })
                _ (record { stream = v.sent.stream; number = v.sent.number })
                (omega (arith, v.next, room)) refl;
          ask = inr (
            ap (λ f. f s.next_oid) (push-live s _) ∙ update_self (live s) s.next_oid true,
            omega (arith, next),
          );
          bid =
              subst₂ (λ f m. IsOpen f m s.best_bid s.bid_oid) (sym (push-live s _)) (sym next)
                (added-IsOpen (live s) s.next_oid s.bid_oid s.next_oid s.best_bid v.bid);
          apart = elim (IsOpen-apart (live s) s.next_oid s.best_bid s.bid_oid v.bid) [
            | inl e ↦ inl e
            | inr q ↦ inr (inr q)
          ];
        };
        next = omega (arith, next, v.next);
      }

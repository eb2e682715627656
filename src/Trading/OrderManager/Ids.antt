-- ===== src/Trading/OrderManager/Ids.antt =====
-- The numbers of the new orders that a run of the order manager sends.
use nano_trade.Base.{
  if-holds, ℕ, ◌+◌, ◌*◌, ◌^◌, ◌≤◌, ◌<◌, ◌≡◌, refl, ap, arith, Bool, true, false, ltb-lt, List, [],
  ◌∷◌, ◌++◌, map, append-nil,
}
use nano_trade.Base.Int.{ℤ, eqb_ℤ}
use nano_trade.Base.Lists.{length, All, All-map, Distinct, NotIn}
use nano_trade.Base.Ring.{Distinct-append}
use nano_trade.Base.Outcome.{ok}
use nano_trade.Common.Types.{Side, side_to_index, me_max_tickers, price_invalid}
use nano_trade.Exchange.Messages.{MeClientRequest, ClientRequestType}
use nano_trade.Trading.OrderManager.{
  OmOrderState, OrderManager, init, is_allowed, try_new_order, new_order, cancel_order, move_order,
  move_orders, updated_order, on_order_update, write_order,
}
use nano_trade.Trading.RiskManager.{RiskCheckResult}
use nano_trade.Trading.OrderManager.Pending.{Event, handle, run, select, select-append}

abbrev pub is_new_order : MeClientRequest → Bool
is_new_order r = elim r.type [ ClientRequestType.new ↦ true | _ ↦ false ]

-- The numbers of the new orders that were sent.
abbrev pub new_ids : OrderManager → List ℕ
new_ids m = map MeClientRequest.order_id (select is_new_order m.sent)

abbrev IsBelow : ℕ → List ℕ → Type 0
IsBelow k = All (λ a. a < k)

-- The numbers used differ and are below the next one, which has grown by at most `k`.
record IsFresh (m : OrderManager) (k : ℕ) (n : OrderManager) : Type 0 where
  distinct : Distinct (new_ids n)
  below : IsBelow n.next_order_id (new_ids n)
  near : n.next_order_id ≤ m.next_order_id + k

IsBelow-NotIn : (k : ℕ) (xs : List ℕ) → IsBelow k xs → NotIn k xs
IsBelow-NotIn k xs = All-map xs (λ x h. omega arith)

IsBelow-append : (k : ℕ) (xs : List ℕ) → IsBelow k xs → IsBelow (k + 1) (xs ++ k ∷ [])
IsBelow-append k [] h = (omega arith, tt)
IsBelow-append k (x ∷ xs) h = (omega arith, IsBelow-append k xs h.1)

map-append :
    (xs ys : List MeClientRequest)
    → map MeClientRequest.order_id (xs ++ ys)
      ≡ map MeClientRequest.order_id xs ++ map MeClientRequest.order_id ys
map-append [] ys = refl
map-append (x ∷ xs) ys = ap (λ l. x.order_id ∷ l) (map-append xs ys)

module _ (m n : OrderManager) (k : ℕ) (f : IsFresh m k n) where
  IsFresh-more : (l : ℕ) → k ≤ l → IsFresh m l n
  IsFresh-more l h = record { distinct = f.distinct; below = f.below; near = omega (arith, f.near) }

  new_order-ids :
      (i t : ℕ) (price : ℤ) (side : Side) (qty : ℕ)
      → new_ids (new_order n i t price side qty) ≡ new_ids n ++ n.next_order_id ∷ []
  unfolding new_order
  new_order-ids i t price side qty = rw (select-append, map-append) refl

  new_order-next :
      (i t : ℕ) (price : ℤ) (side : Side) (qty : ℕ)
      → n.next_order_id + 1 < 2 ^ 64
      → (new_order n i t price side qty).next_order_id ≡ n.next_order_id + 1
  unfolding new_order
  new_order-next i t price side qty h = omega arith

  new_order-IsFresh :
      (i t : ℕ) (price : ℤ) (side : Side) (qty : ℕ)
      → n.next_order_id + 1 < 2 ^ 64
      → IsFresh m (k + 1) (new_order n i t price side qty)
  new_order-IsFresh i t price side qty h =
      let next = new_order-next i t price side qty h in
      record {
        distinct = rw (new_order-ids i t price side qty) (
            Distinct-append n.next_order_id (new_ids n) f.distinct
              (IsBelow-NotIn n.next_order_id (new_ids n) f.below));
        below =
            rw (new_order-ids i t price side qty, next)
              (IsBelow-append n.next_order_id (new_ids n) f.below);
        near = omega (arith, next, f.near);
      }

  cancel_order-ids : (t i : ℕ) → new_ids (cancel_order n t i) ≡ new_ids n
  unfolding cancel_order
  cancel_order-ids t i = rw (select-append, append-nil) refl

  cancel_order-IsFresh : (t i : ℕ) → IsFresh m k (cancel_order n t i)
  unfolding cancel_order
  cancel_order-IsFresh t i = record {
    distinct = rw (cancel_order-ids t i) f.distinct;
    below = rw (cancel_order-ids t i) f.below;
    near = f.near;
  }

  move_order-IsFresh :
      (i t : ℕ) (price : ℤ) (side : Side) (qty : ℕ)
      → n.next_order_id + 1 < 2 ^ 64
      → IsFresh m (k + 1) (move_order n i t price side qty)
  unfolding move_order try_new_order
  move_order-IsFresh i t price side qty h = from (n.ticker_side_order t i).order_state refl
    where
      unchanged : IsFresh m (k + 1) n
      unchanged = IsFresh-more (k + 1) (omega arith)

      tried : IsFresh m (k + 1) (try_new_order n i t price side qty)
      tried = if-holds (IsFresh m (k + 1)) (eqb_ℤ price price_invalid) unchanged (
          if-holds (IsFresh m (k + 1)) (is_allowed (n.risk t side qty))
            (new_order-IsFresh i t price side qty h) unchanged)

      cancelled : (u j : ℕ) → IsFresh m (k + 1) (cancel_order n u j)
      cancelled u j =
          let c = cancel_order-IsFresh u j in
          record { distinct = c.distinct; below = c.below; near = omega (arith, c.near) }

      from :
          (s : OmOrderState)
          → (n.ticker_side_order t i).order_state ≡ s
          → IsFresh m (k + 1) (move_order n i t price side qty)
      from OmOrderState.invalid e = rw (e, move_order) tried
      from OmOrderState.dead e = rw (e, move_order) tried
      from OmOrderState.pending_new e = rw (e, move_order) unchanged
      from OmOrderState.pending_cancel e = rw (e, move_order) unchanged
      from OmOrderState.live e =
          rw (e, move_order)
            (if-holds (IsFresh m (k + 1)) (eqb_ℤ (n.ticker_side_order t i).price price) unchanged
              (cancelled t i))

-- The instrument of the event is in range.
abbrev pub IsKnown : Event → Type 0
IsKnown (Event.quote t bid ask clip) = t < me_max_tickers
IsKnown (Event.response r) = r.ticker_id < me_max_tickers
IsKnown (Event.reassess risk) = Unit

handle-IsFresh :
    (m : OrderManager) (e : Event) (n : OrderManager) (k : ℕ)
    → IsKnown e
    → IsFresh m k n
    → m.next_order_id + k + 2 < 2 ^ 64
    → (o : OrderManager) × (handle e n ≡ ok (tt, o)) × IsFresh m (k + 2) o
unfolding handle move_orders on_order_update
handle-IsFresh m (Event.quote t bid ask clip) n k q f h =
    let i = side_to_index Side.buy in
    let o = move_order n i t bid Side.buy clip in
    let f' = move_order-IsFresh m n k f i t bid Side.buy clip (omega (arith, f.near)) in
    let j = side_to_index Side.sell in
    let f'' = move_order-IsFresh m o (k + 1) f' j t ask Side.sell clip (omega (arith, f'.near)) in
    (
      move_order o j t ask Side.sell clip,
      rw (ltb-lt t me_max_tickers q) refl,
      IsFresh-more m _ (k + 1 + 1) f'' (k + 2) (omega arith),
    )
handle-IsFresh m (Event.response r) n k q f h = (
  write_order n r.ticker_id (side_to_index r.side)
      (updated_order (n.ticker_side_order r.ticker_id (side_to_index r.side)) r),
  rw (ltb-lt r.ticker_id me_max_tickers q) refl,
  record { distinct = f.distinct; below = f.below; near = omega (arith, f.near) },
)
handle-IsFresh m (Event.reassess risk) n k q f h = (
  record n { risk = risk },
  refl,
  record { distinct = f.distinct; below = f.below; near = omega (arith, f.near) },
)

run-IsFresh :
    (m : OrderManager) (es : List Event) (n : OrderManager) (k : ℕ)
    → All IsKnown es
    → IsFresh m k n
    → m.next_order_id + k + 2 * length es < 2 ^ 64
    → (o : OrderManager) × (run es n ≡ ok o) × IsFresh m (k + 2 * length es) o
unfolding run
run-IsFresh m [] n k q f h = (n, refl, IsFresh-more m n k f (k + 0) (omega arith))
run-IsFresh m (e ∷ es) n k q f h =
    let (o, ran, f') = handle-IsFresh m e n k q.0 f (omega arith) in
    let (p, ran', f'') = run-IsFresh m es o (k + 2) q.1 f' (omega arith) in
    (p, rw ran ran', IsFresh-more m p (k + 2 + 2 * length es) f'' _ (omega arith))

-- From the start, over quotes and responses for instruments in range, whatever the risk checks
-- answer, and as long as the numbers of the orders cannot run over: the run has no fault, and no
-- two new orders of it have the same number.
pub run-Distinct :
    (client_id : ℕ) (risk : ℕ → Side → ℕ → RiskCheckResult) (es : List Event)
    → All IsKnown es
    → 1 + 2 * length es < 2 ^ 64
    → (n : OrderManager) × (run es (init client_id risk) ≡ ok n) × Distinct (new_ids n)
unfolding init
run-Distinct client_id risk es q h =
    let m = init client_id risk in
    let (n, ran, f) =
      run-IsFresh m es m 0 q (record { distinct = tt; below = tt; near = omega arith }) h in
    (n, ran, f.distinct)

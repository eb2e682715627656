-- ===== src/Trading/Strategies/Requests.antt =====
-- What the order manager sends when an algorithm moves its orders.
use nano_trade.Base.{
  ℕ, ◌<◌, ◌≡◌, refl, sym, ◌∙◌, ap, false, ltb-lt, if-holds, List, [], ◌∷◌, ◌++◌, append-nil,
  append_assoc, Bool-cases, inl, inr, ◌⊎◌,
}
use nano_trade.Base.Int.{ℤ, eqb_ℤ}
use nano_trade.Base.Lists.{All, All-append, All-map}
use nano_trade.Base.Outcome.{ok}
use nano_trade.Common.Types.{Side, side_to_index, price_invalid, me_max_tickers}
use nano_trade.Exchange.Messages.{MeClientRequest, ClientRequestType}
use nano_trade.Trading.OrderManager.{
  OmOrderState, OrderManager, is_allowed, new_order, cancel_order, try_new_order, move_order,
  move_orders,
}

-- `n` has sent what `m` has, and then requests that all satisfy `P`.
abbrev pub Sends : OrderManager → OrderManager → (MeClientRequest → Type 0) → Type 0
Sends m n P = (rs : List MeClientRequest) × (n.sent ≡ m.sent ++ rs) × All P rs

pub Sends-none : (m : OrderManager) (P : MeClientRequest → Type 0) → Sends m m P
Sends-none m P = ([], sym (append-nil m.sent), tt)

pub Sends-trans :
    (m n k : OrderManager) (P : MeClientRequest → Type 0) → Sends m n P → Sends n k P → Sends m k P
Sends-trans m n k P (rs, e, p) (ss, f, q) =
    (rs ++ ss, f ∙ ap (λ x. x ++ ss) e ∙ append_assoc m.sent rs ss, All-append P rs ss p q)

pub Sends-weaken :
    (m n : OrderManager) (P Q : MeClientRequest → Type 0)
    → ((r : MeClientRequest) → P r → Q r)
    → Sends m n P
    → Sends m n Q
Sends-weaken m n P Q f (rs, e, p) = (rs, e, All-map rs f p)

abbrev pub IsCancel : MeClientRequest → Type 0
IsCancel r = r.type ≡ ClientRequestType.cancel

-- A request for a new order on this side, at this price, and for this quantity; no order is asked
-- for at the invalid price.
pub record IsNew (s : Side) (p : ℤ) (n : ℕ) (r : MeClientRequest) : Type 0 where
  pub type : r.type ≡ ClientRequestType.new
  pub side : r.side ≡ s
  pub price : r.price ≡ p
  pub qty : r.qty ≡ n
  pub valid : eqb_ℤ p price_invalid ≡ false

abbrev pub IsOrder : Side → ℤ → ℕ → MeClientRequest → Type 0
IsOrder side price qty r = IsCancel r ⊎ IsNew side price qty r

module _ (m : OrderManager) (i t : ℕ) (price : ℤ) (side : Side) (qty : ℕ) where
  new_order-Sends :
      eqb_ℤ price price_invalid ≡ false
      → Sends m (new_order m i t price side qty) (IsOrder side price qty)
  unfolding new_order
  new_order-Sends e = (
    _ ∷ [],
    refl,
    (inr (record { type = refl; side = refl; price = refl; qty = refl; valid = e }), tt),
  )

  cancel_order-Sends : Sends m (cancel_order m t i) (IsOrder side price qty)
  unfolding cancel_order
  cancel_order-Sends = (_ ∷ [], refl, (inl refl, tt))

  try_new_order-Sends : Sends m (try_new_order m i t price side qty) (IsOrder side price qty)
  unfolding try_new_order
  try_new_order-Sends = elim (Bool-cases (eqb_ℤ price price_invalid)) [
    | inl e ↦ rw (try_new_order, e) (Sends-none m _)
    | inr e ↦
        rw (try_new_order, e)
          (if-holds (λ n. Sends m n (IsOrder side price qty)) (is_allowed (m.risk t side qty))
            (new_order-Sends e) (Sends-none m _))
  ]

  move_order-Sends : Sends m (move_order m i t price side qty) (IsOrder side price qty)
  unfolding move_order
  move_order-Sends = from (m.ticker_side_order t i).order_state refl
    where
      from :
          (s : OmOrderState)
          → (m.ticker_side_order t i).order_state ≡ s
          → Sends m (move_order m i t price side qty) (IsOrder side price qty)
      from OmOrderState.invalid e = rw (e, move_order) try_new_order-Sends
      from OmOrderState.dead e = rw (e, move_order) try_new_order-Sends
      from OmOrderState.pending_new e = rw (e, move_order) (Sends-none m _)
      from OmOrderState.pending_cancel e = rw (e, move_order) (Sends-none m _)
      from OmOrderState.live e =
          rw (e, move_order)
            (if-holds (λ n. Sends m n (IsOrder side price qty))
              (eqb_ℤ (m.ticker_side_order t i).price price) (Sends-none m _) cancel_order-Sends)

-- A request that cancels, or asks for a new order at one of the two prices, on its side.
abbrev pub IsQuote : (bid_price ask_price : ℤ) → ℕ → MeClientRequest → Type 0
IsQuote bid_price ask_price qty r =
    IsCancel r ⊎ (IsNew Side.buy bid_price qty r ⊎ IsNew Side.sell ask_price qty r)

bid-IsQuote :
    (bid ask : ℤ) (qty : ℕ) (r : MeClientRequest)
    → IsOrder Side.buy bid qty r
    → IsQuote bid ask qty r
bid-IsQuote bid ask qty r (inl c) = inl c
bid-IsQuote bid ask qty r (inr n) = inr (inl n)

ask-IsQuote :
    (bid ask : ℤ) (qty : ℕ) (r : MeClientRequest)
    → IsOrder Side.sell ask qty r
    → IsQuote bid ask qty r
ask-IsQuote bid ask qty r (inl c) = inl c
ask-IsQuote bid ask qty r (inr n) = inr (inr n)

pub move_orders-Sends :
    (t : ℕ) (bid ask : ℤ) (clip : ℕ) (m : OrderManager)
    → t < me_max_tickers
    → (n : OrderManager) × (move_orders t bid ask clip m ≡ ok (tt, n))
      × Sends m n (IsQuote bid ask clip)
unfolding move_orders
move_orders-Sends t bid ask clip m h =
    let k : OrderManager = move_order m (side_to_index Side.buy) t bid Side.buy clip in
    let n : OrderManager = move_order k (side_to_index Side.sell) t ask Side.sell clip in
    (
      n,
      rw (ltb-lt t me_max_tickers h) refl,
      Sends-trans m k n _
          (Sends-weaken m k _ _ (bid-IsQuote bid ask clip)
            (move_order-Sends m (side_to_index Side.buy) t bid Side.buy clip))
          (Sends-weaken k n _ _ (ask-IsQuote bid ask clip)
            (move_order-Sends k (side_to_index Side.sell) t ask Side.sell clip)),
    )

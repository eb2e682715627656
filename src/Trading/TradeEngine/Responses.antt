-- ===== src/Trading/TradeEngine/Responses.antt =====
-- The first loop of `TradeEngine::run`: the responses that wait are all handled, oldest first.
use nano_trade.Base.{
  ℕ, suc, ◌+◌, ◌<◌, ◌≡◌, ◌⊎◌, inl, inr, refl, sym, ap, ◌∙◌, subst, arith, true, ◌&&◌, ◌==◌,
  if◌then◌else◌, ltb-lt, Bool-cases, update, List, [], ◌∷◌,
}
use nano_trade.Base.Lists.{All, length}
use nano_trade.Base.Double.{Double}
use nano_trade.Base.Outcome.{ok}
use nano_trade.Common.Types.{side_to_index, me_max_tickers}
use nano_trade.Common.LfQueue.{LfQueue, size, pushes}
use nano_trade.Common.LfQueue.Fifo.{IsValid, contents, contents-length, read-contents, read-empty}
use nano_trade.Exchange.Messages.{MeClientResponse}
use nano_trade.Trading.OrderManager.{OmOrder, on_order_update, updated_order}
use nano_trade.Trading.PositionKeeper.{PositionKeeper, PositionInfo, keeper_add_fill, add_fill}
use nano_trade.Trading.PositionKeeper.Fills.{add_fills}
use nano_trade.Trading.TradeEngine.{
  TradeEngine, AlgoType, is_filled, risk_check, fill_positions, with_manager, algo_on_order_update,
  engine_on_order_update, drain_responses,
}

-- The fills of one instrument among the responses.
abbrev pub fills_of : (ticker_id : ℕ) → List MeClientResponse → List MeClientResponse
fills_of t [] = []
fills_of t (r ∷ rs) =
    let rest = fills_of t rs in if is_filled r.type && (t == r.ticker_id) then r ∷ rest else rest

abbrev pub Slots : Type 0
Slots = ℕ → ℕ → OmOrder

-- What a run of responses makes of the orders of the order manager.
abbrev pub answered : Slots → List MeClientResponse → Slots
answered f [] = f
answered f (r ∷ rs) =
    let i = side_to_index r.side in
    answered (update f r.ticker_id (update (f r.ticker_id) i (updated_order (f r.ticker_id i) r)))
      rs

abbrev pub InRange : MeClientResponse → Type 0
InRange r = r.ticker_id < me_max_tickers

same : (i j : ℕ) → (i == j) ≡ true → i ≡ j
same i j e = ground (arith, e)

module _ {W : Type 0} ⦃d : Double W⦄ where
  abbrev pub Trades : TradeEngine W → Type 0
  Trades e = (e.algo ≡ AlgoType.maker) ⊎ (e.algo ≡ AlgoType.taker)

  -- The engine `f` is `e` after the responses `rs`, but for the queue of responses.
  pub record HasHandled (e f : TradeEngine W) (rs : List MeClientResponse) : Type 0 where
    pub positions : (t : ℕ) → f.position_keeper t ≡ add_fills (e.position_keeper t) (fills_of t rs)
    pub orders : f.order_manager.ticker_side_order ≡ answered e.order_manager.ticker_side_order rs
    pub requests : f.outgoing_ogw_requests ≡ e.outgoing_ogw_requests
    pub algo : f.algo ≡ e.algo

  fill_positions-fills :
      (k : PositionKeeper W) (r : MeClientResponse)
      → InRange r
      → (l : PositionKeeper W) × (fill_positions k r ≡ ok l)
        × ((t : ℕ) → l t ≡ add_fills (k t) (fills_of t (r ∷ [])))
  unfolding fill_positions keeper_add_fill
  fill_positions-fills k r h = elim (Bool-cases (is_filled r.type)) [
    | inl e ↦ (
      update k r.ticker_id (add_fill (k r.ticker_id) r),
      rw (e, ltb-lt r.ticker_id me_max_tickers h) refl,
      λ t. rw e (elim (Bool-cases (t == r.ticker_id)) [
        | inl s ↦ rw s (ap (λ i. add_fill (k i) r) (sym (same t r.ticker_id s)))
        | inr s ↦ rw s refl
      ]),
    )
    | inr e ↦ (k, rw e refl, λ t. rw e refl)
  ]

  -- The engine after its order manager has taken the response.
  abbrev told : TradeEngine W → MeClientResponse → TradeEngine W
  told e r = record e {
    order_manager = record e.order_manager {
      risk = risk_check e.position_keeper e.ticker_cfg;
      sent = [];
      ticker_side_order = answered e.order_manager.ticker_side_order (r ∷ []);
    };
  }

  with_manager-told :
      (e : TradeEngine W) (r : MeClientResponse)
      → InRange r
      → with_manager e (on_order_update r) ≡ ok (told e r)
  unfolding with_manager on_order_update pushes
  with_manager-told e r h = rw (ltb-lt r.ticker_id me_max_tickers h) refl

  algo-told :
      (e : TradeEngine W) (r : MeClientResponse)
      → Trades e
      → InRange r
      → algo_on_order_update e.algo e r ≡ ok (told e r)
  unfolding algo_on_order_update
  algo-told e r (inl m) h = ap (λ a. algo_on_order_update a e r) m ∙ with_manager-told e r h
  algo-told e r (inr m) h = ap (λ a. algo_on_order_update a e r) m ∙ with_manager-told e r h

  step-HasHandled :
      (e : TradeEngine W) (r : MeClientResponse)
      → Trades e
      → InRange r
      → (f : TradeEngine W) × (engine_on_order_update e r ≡ ok f)
        × HasHandled e f (r ∷ [])
        × (f.incoming_ogw_responses ≡ e.incoming_ogw_responses)
  unfolding engine_on_order_update
  step-HasHandled e r t h =
      let (l, run, same) = fill_positions-fills e.position_keeper r h in
      (
        told (record e { position_keeper = l }) r,
        rw run (algo-told (record e { position_keeper = l }) r t h),
        record { positions = same; orders = refl; requests = refl; algo = refl },
        refl,
      )

  fills_of-cons :
      (t : ℕ) (p : PositionInfo W) (r : MeClientResponse) (rs : List MeClientResponse)
      → add_fills (add_fills p (fills_of t (r ∷ []))) (fills_of t rs)
        ≡ add_fills p (fills_of t (r ∷ rs))
  fills_of-cons t p r rs = elim (Bool-cases (is_filled r.type && (t == r.ticker_id))) [
    | inl e ↦ rw e refl
    | inr e ↦ rw e refl
  ]

  -- The queue of the engine `f` after `e`'s own has been read.
  HasHandled-cons :
      (e f g : TradeEngine W) (q : LfQueue MeClientResponse) (r : MeClientResponse)
      (rs : List MeClientResponse)
      → HasHandled e f (r ∷ [])
      → HasHandled (record f { incoming_ogw_responses = q }) g rs
      → HasHandled e g (r ∷ rs)
  HasHandled-cons e f g q r rs a b = record {
    positions = λ t.
        b.positions t
        ∙ ap (λ p. add_fills p (fills_of t rs)) (a.positions t)
        ∙ fills_of-cons t (e.position_keeper t) r rs;
    orders = b.orders ∙ ap (λ o. answered o rs) a.orders;
    requests = b.requests ∙ a.requests;
    algo = b.algo ∙ a.algo;
  }

  drains :
      (e : TradeEngine W) (rs : List MeClientResponse)
      → Trades e
      → IsValid e.incoming_ogw_responses
      → contents e.incoming_ogw_responses ≡ rs
      → All InRange rs
      → (f : TradeEngine W) × (drain_responses (suc (length rs)) e ≡ ok f)
        × HasHandled e f rs
        × (contents f.incoming_ogw_responses ≡ [])
  unfolding drain_responses
  drains e [] t v c h = (
    e,
    rw (drain_responses, (read-empty e.incoming_ogw_responses c).0) refl,
    record { positions = λ t. refl; orders = refl; requests = refl; algo = refl },
    c,
  )
  drains e (r ∷ rs) t v c h =
      let (shown, (q, moved, v', c')) = read-contents e.incoming_ogw_responses r rs v c in
      let (f, run, a, same_queue) = step-HasHandled e r t h.0 in
      let (g, rest, b, empty) =
        drains (record f { incoming_ogw_responses = q }) rs
          (elim t [ inl m ↦ inl (a.algo ∙ m) | inr m ↦ inr (a.algo ∙ m) ]) v' c' h.1 in
      (
        g,
        rw (drain_responses, shown, run, same_queue, moved) rest,
        HasHandled-cons e f g q r rs a b,
        empty,
      )

  -- An engine with one of the two algorithms and a valid queue of responses for instruments in
  -- range, to which nothing is pushed meanwhile: the loop ends and leaves the queue empty; every
  -- response has been handled, oldest first: each position is the one that the fills of its
  -- instrument make of it, each order of the order manager the one that the responses make of it,
  -- and no request has been sent.
  pub drain_responses-HasHandled :
      (e : TradeEngine W)
      → Trades e
      → IsValid e.incoming_ogw_responses
      → All InRange (contents e.incoming_ogw_responses)
      → (f : TradeEngine W) × (drain_responses (size e.incoming_ogw_responses + 1) e ≡ ok f)
        × HasHandled e f (contents e.incoming_ogw_responses)
        × (contents f.incoming_ogw_responses ≡ [])
  unfolding size
  drain_responses-HasHandled e t v h =
      let (f, run, a, empty) = drains e (contents e.incoming_ogw_responses) t v refl h in
      (
        f,
        subst (λ n. drain_responses n e ≡ ok f)
            (ap suc (contents-length e.incoming_ogw_responses) ∙ omega arith) run,
        a,
        empty,
      )

-- ===== src/Exchange/Book/Walk.antt =====
-- Where `addOrdersAtPrice` of `MEOrderBook` (exchange/matcher/me_order_book.h) puts a new level: the
-- walk over the levels of the side.
use nano_trade.Base.{
  ℕ, zero, suc, ◌+◌, ◌≤◌, ◌<◌, ◌≡◌, ◌≢◌, refl, ◌∙◌, ap, arith, true, false, Bool, Bool-cases, inl,
  inr, if◌then◌else◌, ==-ne, ==-self, ◌||◌, fun_ext, update, List, [], ◌∷◌, ◌++◌, append_assoc,
  subst,
}
use nano_trade.Base.Int.{ℤ, eq_of_parts}
use nano_trade.Base.Outcome.{ok}
use nano_trade.Base.Lists.{NotIn, length}
use nano_trade.Base.Ring.{Seg, Ring-rotate}
use nano_trade.Base.Linked.{InRing}
use nano_trade.Common.Types.{Side, is_buy, is_sell}
use nano_trade.Exchange.Book.{MeOrderBook, Levels, level_at}
use nano_trade.Exchange.Book.Links.{level_next, level_prev}
use nano_trade.Exchange.Book.Levels.{comes_after, walk, find_target}
use nano_trade.Exchange.Book.LevelRing.{me_levels}

-- Where the walk stops among the levels `ts` before it comes round to `best`.
abbrev pub stop : (ℕ → Bool) → (best : ℕ) → List ℕ → ℕ × Bool
stop after best [] = (best, true)
stop after best (t ∷ ts) = if after t then stop after best ts else (t, false)

module _ (b : MeOrderBook) (side : Side) (price : ℤ) (best : ℕ) where
  abbrev pub after : ℕ → Bool
  after l = comes_after side price (level_at b l).price

  walk-home : (fuel : ℕ) → 1 ≤ fuel → walk fuel side price best best true b ≡ ok ((best, true), b)
  unfolding walk
  walk-home zero h = absurd (omega arith)
  walk-home (suc fuel) h = rw ==-self refl

  walk-still : (fuel t : ℕ) → 1 ≤ fuel → walk fuel side price best t false b ≡ ok ((t, false), b)
  unfolding walk
  walk-still zero t h = absurd (omega arith)
  walk-still (suc fuel) t h = refl

  walk-stop :
      (ts : List ℕ) (t fuel : ℕ)
      → Seg (level_next b.orders_at_price_pool) (level_prev b.orders_at_price_pool) t ts best
      → NotIn best (t ∷ ts)
      → length (t ∷ ts) < fuel
      → walk fuel side price best t true b ≡ ok (stop after best (t ∷ ts), b)
  unfolding walk
  walk-stop ts t zero s n h = absurd (omega arith)
  walk-stop [] t (suc fuel) s n h = elim (Bool-cases (after t)) [
    | inl e ↦ rw (==-ne t best n.0, e, s.0) (walk-home fuel (omega arith))
    | inr e ↦ rw (==-ne t best n.0, e) refl
  ]
  walk-stop (u ∷ us) t (suc fuel) s n h = elim (Bool-cases (after t)) [
    | inl e ↦ rw (==-ne t best n.0, e, s.0) (walk-stop us u fuel s.2 n.1 (omega arith))
    | inr e ↦ rw (==-ne t best n.0, e) refl
  ]

  pub find_target-better :
      after best ≡ false → find_target side price best b ≡ ok ((best, false), b)
  unfolding find_target
  find_target-better e = rw e (walk-still (b.orders_at_price_pool.size + 1) best (omega arith))

  pub find_target-stop :
      (rest : List ℕ)
      → after best ≡ true
      → InRing me_levels b.orders_at_price_pool best rest
      → length rest < b.orders_at_price_pool.size
      → find_target side price best b ≡ ok (stop after best rest, b)
  unfolding find_target
  find_target-stop [] e r h =
      rw (e, r.links.0, e) (walk-home (b.orders_at_price_pool.size + 1) (omega arith))
  find_target-stop (t ∷ ts) e r h = elim (Bool-cases (after t)) [
    | inl f ↦
        rw (e, r.links.0, f)
          (walk-stop ts t (b.orders_at_price_pool.size + 1) r.links.2 r.distinct.0 (omega arith)
            ∙ rw f refl)
    | inr f ↦ rw (e, r.links.0, f) (walk-still (b.orders_at_price_pool.size + 1) t (omega arith))
  ]

-- The levels with `x` before the first one that the price of `x` does not come after.
abbrev pub placed : (ℕ → Bool) → ℕ → List ℕ → List ℕ
placed after x [] = x ∷ []
placed after x (t ∷ ts) = if after t then t ∷ placed after x ts else x ∷ t ∷ ts

-- Where a walk stops: behind all levels, or before one of them.
pub data Stops (after : ℕ → Bool) (best x : ℕ) (ts : List ℕ) : Type 0 where
  at_end :
      stop after best ts ≡ (best, true) → placed after x ts ≡ ts ++ x ∷ [] → Stops after best x ts
  before_level :
      (xs : List ℕ) (t : ℕ) (ys : List ℕ)
      → ts ≡ xs ++ t ∷ ys
      → stop after best ts ≡ (t, false)
      → placed after x ts ≡ xs ++ x ∷ t ∷ ys
      → Stops after best x ts

pub stop-Stops : (after : ℕ → Bool) (best x : ℕ) (ts : List ℕ) → Stops after best x ts
stop-Stops after best x [] = at_end refl refl
stop-Stops after best x (t ∷ ts) = elim (Bool-cases (after t)) [
  | inr e ↦ before_level [] t ts refl (rw e refl) (rw e refl)
  | inl e ↦ elim (stop-Stops after best x ts) [
    | at_end s p ↦ at_end (rw e s) (rw e (ap (◌∷◌ t) p))
    | before_level xs u ys d s p ↦
        before_level (t ∷ xs) u ys (ap (◌∷◌ t) d) (rw e s) (rw e (ap (◌∷◌ t) p))
  ]
]

-- A level between two others of a ring, from the ring turned to the one before which it goes.
pub between-InRing :
    (q : Levels) (best x t : ℕ) (xs ys : List ℕ)
    → InRing me_levels q t ((ys ++ best ∷ xs) ++ x ∷ [])
    → InRing me_levels q best (xs ++ x ∷ t ∷ ys)
between-InRing q best x t xs ys r =
    subst (InRing me_levels q best) (append_assoc xs (x ∷ []) (t ∷ ys)) (
      Ring-rotate t best ys (xs ++ x ∷ [])
        (subst (InRing me_levels q t) (append_assoc ys (best ∷ xs) (x ∷ [])) r))

pub update_same : {A : Type 0} (f : ℕ → A) (i : ℕ) (v : A) → f i ≡ v → update f i v ≡ f
update_same f i v e = fun_ext λ k. ground (arith, e)

pub comes_after_asym :
    (side : Side) (p q : ℤ) → comes_after side p q ≡ true → comes_after side q p ≡ false
comes_after_asym Side.buy p q h = ground (arith, h)
comes_after_asym Side.sell p q h = ground (arith, h)
comes_after_asym Side.invalid p q h = refl
comes_after_asym Side.max p q h = refl

Bool-true : (c : Bool) → c ≢ false → c ≡ true
Bool-true true n = refl
Bool-true false n = absurd (n refl)

pub comes_after-total :
    (side : Side) (p q : ℤ)
    → (is_buy side || is_sell side) ≡ true
    → p ≢ q
    → comes_after side p q ≡ false
    → comes_after side q p ≡ true
comes_after-total Side.buy p q s n h = Bool-true _ (λ e. n (eq_of_parts p q (ground (arith, h, e))))
comes_after-total Side.sell p q s n h =
    Bool-true _ (λ e. n (eq_of_parts p q (ground (arith, h, e))))
comes_after-total Side.invalid p q s n h = cc
comes_after-total Side.max p q s n h = cc

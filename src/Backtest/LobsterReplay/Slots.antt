-- ===== src/Backtest/LobsterReplay/Slots.antt =====
-- The replay's map of slots follows the orders of its stream.
use nano_trade.Base.{
  ℕ, ◌+◌, ◌<◌, ◌≤◌, ◌≡◌, ◌≢◌, refl, sym, ap, ◌∙◌, arith, Bool, true, ◌||◌, ◌==◌, not, if-holds, ltb,
  if◌then◌else◌, Bool-cases, Option-cases, inl, inr, ◌⊎◌, update, Option, none, some, List, [], ◌∷◌,
  ◌++◌,
}
use nano_trade.Common.Types.{me_max_order_ids, to_u64}
use nano_trade.Exchange.Messages.{MarketUpdateType, MdpMarketUpdate}
use nano_trade.Backtest.Csv.{Text}
use nano_trade.Backtest.Stream.{
  is_add, is_cancel, is_invalid, after, IsStream, final, next_num, IsStream-snoc, final-snoc,
  next_num-snoc, no_orders,
}
use nano_trade.Backtest.LobsterReplay.{
  LobsterReplay, FromChars, Row, skip_row, row_update, emit_row, new_row, slot_row, replay_row,
  replay_line, replay_lines, parse_row, init, map_type,
}

-- Every kind but ADD is about an order that is there.
abbrev pub names_order : MarketUpdateType → Bool
names_order t = not (is_add t)

-- What the map of slots knows of the stream.
record IsTracked (s : LobsterReplay) : Type 0 where
  stream : IsStream names_order 1 no_orders s.emitted
  number : next_num 1 s.emitted ≡ s.seq_num
  live : (o k : ℕ) → s.lobster_id_to_slot o ≡ some k → final no_orders s.emitted k ≡ true
  bounded : (o k : ℕ) → s.lobster_id_to_slot o ≡ some k → k < s.next_slot
  distinct : (o p k : ℕ) → s.lobster_id_to_slot o ≡ some k → s.lobster_id_to_slot p ≡ some k → o ≡ p
  fits : s.next_slot ≤ me_max_order_ids

module _ (s : LobsterReplay) (slot : ℕ) (type : MarketUpdateType) (row : Row)
    (v : IsTracked s) where
  abbrev sent : MdpMarketUpdate
  sent = record { seq_num = s.seq_num; me_market_update = row_update s.ticker_id slot type row }

  sent-IsStream :
      slot < me_max_order_ids
      → (not (names_order type) || final no_orders s.emitted slot) ≡ true
      → IsStream names_order 1 no_orders (s.emitted ++ sent ∷ [])
  unfolding row_update
  sent-IsStream h l =
      IsStream-snoc names_order 1 no_orders s.emitted sent v.stream (sym v.number, h, l, tt)

  sent-number : next_num 1 (s.emitted ++ sent ∷ []) ≡ to_u64 (s.seq_num + 1)
  sent-number = next_num-snoc 1 s.emitted sent ∙ ap (λ n. to_u64 (n + 1)) v.number

  sent-live :
      final no_orders (s.emitted ++ sent ∷ [])
      ≡ after (final no_orders s.emitted) (row_update s.ticker_id slot type row)
  sent-live = final-snoc no_orders s.emitted sent

  -- Whatever the row of an order with a slot is.
  emit_row-IsTracked :
      s.lobster_id_to_slot row.lobster_oid ≡ some slot → IsTracked (emit_row s slot type row)
  unfolding emit_row row_update
  emit_row-IsTracked known = record {
    stream =
        sent-IsStream (omega (arith, v.bounded row.lobster_oid slot known, v.fits))
          (rw (v.live row.lobster_oid slot known) (ground arith));
    number = sent-number;
    live = λ o k e. ap (λ f. f k) sent-live ∙ still o k e;
    bounded = λ o k e. v.bounded o k (before o k e);
    distinct = λ o p k e f. v.distinct o p k (before o k e) (before p k f);
    fits = v.fits;
  }
    where
      map : ℕ → Option ℕ
      map =
          if is_cancel type
          then update s.lobster_id_to_slot row.lobster_oid none
          else s.lobster_id_to_slot

      before : (o k : ℕ) → map o ≡ some k → s.lobster_id_to_slot o ≡ some k
      before o k e = ground (arith, e)

      away : (o k : ℕ) → map o ≡ some k → is_cancel type ≡ true → k ≢ slot
      away o k e c q =
          let same : o ≡ row.lobster_oid =
            v.distinct o row.lobster_oid slot (before o k e ∙ ap some q) known in
          ground (arith, e, same, c)

      still :
          (o k : ℕ)
          → map o ≡ some k
          → after (final no_orders s.emitted) (row_update s.ticker_id slot type row) k ≡ true
      still o k e =
          let l : final no_orders s.emitted k ≡ true = v.live o k (before o k e) in
          elim (Bool-cases (is_cancel type)) [
            | inl c ↦ let n : k ≢ slot = (λ q. away o k e c q) in ground (arith, l, n, c)
            | inr c ↦ ground (arith, l, c)
          ]

-- An ADD of an order without a slot.
module _ (s : LobsterReplay) (row : Row) (v : IsTracked s) where
  abbrev added : ℕ → Option ℕ
  added = update s.lobster_id_to_slot row.lobster_oid (some s.next_slot)

  added-cases :
      (o k : ℕ)
      → added o ≡ some k
      → ((o ≡ row.lobster_oid) × (k ≡ s.next_slot)) ⊎ (s.lobster_id_to_slot o ≡ some k)
  added-cases o k e = elim (Bool-cases (o == row.lobster_oid)) [
    | inl q ↦ inl (ground (arith, q), ground (arith, e, q))
    | inr q ↦ inr (ground (arith, e, q))
  ]

  added-bounded : (o k : ℕ) → added o ≡ some k → k < s.next_slot + 1
  added-bounded o k e = elim (added-cases o k e) [
    | inl (_, q) ↦ omega (arith, q)
    | inr g ↦ omega (arith, v.bounded o k g)
  ]

  added-distinct : (o p k : ℕ) → added o ≡ some k → added p ≡ some k → o ≡ p
  added-distinct o p k e f = elim (added-cases o k e) [
    | inl (a, q) ↦ elim (added-cases p k f) [
      | inl (b, _) ↦ a ∙ sym b
      | inr g ↦ absurd (omega (arith, q, v.bounded p k g))
    ]
    | inr g ↦ elim (added-cases p k f) [
      | inl (_, q) ↦ absurd (omega (arith, q, v.bounded o k g))
      | inr h ↦ v.distinct o p k g h
    ]
  ]

  added-live :
      (o k : ℕ) → added o ≡ some k → update (final no_orders s.emitted) s.next_slot true k ≡ true
  added-live o k e = elim (added-cases o k e) [
    | inl (_, q) ↦ ground (arith, q)
    | inr g ↦ let l : final no_orders s.emitted k ≡ true = v.live o k g in ground (arith, l)
  ]

  emit_new-IsTracked :
      s.next_slot < me_max_order_ids
      → IsTracked (
          emit_row
            (record s { lobster_id_to_slot = added; next_slot = s.next_slot + 1 })
            s.next_slot
            MarketUpdateType.add
            row)
  unfolding emit_row row_update
  emit_new-IsTracked h = record {
    stream = sent-IsStream s s.next_slot MarketUpdateType.add row v h refl;
    number = sent-number s s.next_slot MarketUpdateType.add row v;
    live = λ o k e.
        ap (λ f. f k) (sent-live s s.next_slot MarketUpdateType.add row v) ∙ added-live o k e;
    bounded = added-bounded;
    distinct = added-distinct;
    fits = omega (arith, h);
  }

is_add-eq : (t : MarketUpdateType) → is_add t ≡ true → t ≡ MarketUpdateType.add
is_add-eq t e = ground (arith, e)

skip_row-IsTracked : (s : LobsterReplay) → IsTracked s → IsTracked (skip_row s)
skip_row-IsTracked s v = record {
  stream = v.stream;
  number = v.number;
  live = v.live;
  bounded = v.bounded;
  distinct = v.distinct;
  fits = v.fits;
}

new_row-IsTracked :
    (s : LobsterReplay) (type : MarketUpdateType) (row : Row)
    → IsTracked s
    → IsTracked (new_row s type row)
unfolding new_row
new_row-IsTracked s type row v = elim (Bool-cases (is_add type)) [
  | inl a ↦ elim (Bool-cases (ltb s.next_slot me_max_order_ids)) [
    | inl b ↦ rw (is_add-eq type a, b) (emit_new-IsTracked s row v (ground (arith, b)))
    | inr b ↦
        rw (a, b)
          (record {
            stream = v.stream;
            number = v.number;
            live = v.live;
            bounded = v.bounded;
            distinct = v.distinct;
            fits = v.fits;
          })
  ]
  | inr a ↦ rw a (skip_row-IsTracked s v)
]

replay_row-IsTracked : (s : LobsterReplay) (row : Row) → IsTracked s → IsTracked (replay_row s row)
unfolding replay_row slot_row
replay_row-IsTracked s row v = elim (Bool-cases (is_invalid (map_type row.lobster_type))) [
  | inl e ↦ rw e (skip_row-IsTracked s v)
  | inr e ↦ elim (Option-cases (s.lobster_id_to_slot row.lobster_oid)) [
    | inl n ↦ rw (e, n) (new_row-IsTracked s (map_type row.lobster_type) row v)
    | inr (k, n) ↦ rw (e, n) (emit_row-IsTracked s k (map_type row.lobster_type) row v n)
  ]
]

replay_line-IsTracked :
    (from_chars : FromChars) (s : LobsterReplay) (l : Text)
    → IsTracked s
    → IsTracked (replay_line from_chars s l)
unfolding replay_line
replay_line-IsTracked from_chars s [] v = v
replay_line-IsTracked from_chars s (c ∷ cs) v =
    replay_row-IsTracked s (parse_row from_chars (c ∷ cs)) v

replay_lines-IsTracked :
    (from_chars : FromChars) (s : LobsterReplay) (ls : List Text)
    → IsTracked s
    → IsTracked (replay_lines from_chars s ls)
unfolding replay_lines
replay_lines-IsTracked from_chars s [] v = v
replay_lines-IsTracked from_chars s (l ∷ ls) v = if-holds IsTracked s.ended v (
    replay_lines-IsTracked from_chars (replay_line from_chars s l) ls
      (replay_line-IsTracked from_chars s l v))

-- Whatever the lines of the file and whatever numbers their fields are read as: the messages of the
-- replay are numbered in turn from 1, their order numbers are inside the arrays of a book, and each
-- but an ADD is about an order that has been added and has not been cancelled since.
pub replay_lines-IsStream :
    (from_chars : FromChars) (ticker_id : ℕ) (ls : List Text)
    → IsStream names_order 1 no_orders (replay_lines from_chars (init ticker_id) ls).emitted
unfolding init
replay_lines-IsStream from_chars ticker_id ls = IsTracked.stream (
    replay_lines-IsTracked from_chars (init ticker_id) ls (record {
      stream = tt;
      number = refl;
      live = λ o k e. ground (arith, e);
      bounded = λ o k e. ground (arith, e);
      distinct = λ o p k e f. ground (arith, e);
      fits = omega arith;
    }))

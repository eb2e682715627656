-- ===== src/Base/Linked.antt =====
-- Memory whose blocks carry a link each way, and the two changes that the order books make to a
-- ring in it: a block is appended, or taken out. `info` is what the links leave alone.
use nano_trade.Base.Store.{update}
use nano_trade.Base.Lists.{NotIn, last}
use nano_trade.Base.Ring.{
  Links, Ring, Ring-insert, Ring-remove_cleared, linked_next, linked_prev, unlinked_next,
  unlinked_prev,
}
use Prim.Native.Nat.{ℕ}
use mathlib.Core.Path.{◌≡◌, sym, ◌∙◌, ap, subst₂}
use mathlib.Core.Option.{Option, none, some}
use mathlib.Core.List.{List, [], ◌∷◌, ◌++◌}

pub record Linked (P I : Type 0) : Type 0 where
  pub next : P → Links
  pub prev : P → Links
  pub info : P → I
  pub put_next : P → ℕ → Option ℕ → P
  pub put_prev : P → ℕ → Option ℕ → P
  pub next-put_next : (p : P) (i : ℕ) (v : Option ℕ) → next (put_next p i v) ≡ update (next p) i v
  pub next-put_prev : (p : P) (i : ℕ) (v : Option ℕ) → next (put_prev p i v) ≡ next p
  pub prev-put_next : (p : P) (i : ℕ) (v : Option ℕ) → prev (put_next p i v) ≡ prev p
  pub prev-put_prev : (p : P) (i : ℕ) (v : Option ℕ) → prev (put_prev p i v) ≡ update (prev p) i v
  pub info-put_next : (p : P) (i : ℕ) (v : Option ℕ) → info (put_next p i v) ≡ info p
  pub info-put_prev : (p : P) (i : ℕ) (v : Option ℕ) → info (put_prev p i v) ≡ info p

module _ {P I : Type 0} (k : Linked P I) (p : P) (first o l : ℕ) where
  -- What a book leaves when `o` has been put behind `l`, the last block of the ring of `first`.
  abbrev pub appended : P
  appended =
      k.put_prev (k.put_next (k.put_prev (k.put_next p l (some o)) o (some l)) o (some first)) first
        (some o)

  appended-next : k.next appended ≡ linked_next (k.next p) o first l
  appended-next =
      k.next-put_prev _ first (some o)
      ∙ k.next-put_next _ o (some first)
      ∙ ap (λ f. update f o (some first))
          (k.next-put_prev _ o (some l) ∙ k.next-put_next p l (some o))

  appended-prev : k.prev appended ≡ linked_prev (k.prev p) o first l
  appended-prev =
      k.prev-put_prev _ first (some o)
      ∙ ap (λ f. update f first (some o))
          (k.prev-put_next _ o (some first)
            ∙ k.prev-put_prev _ o (some l)
            ∙ ap (λ f. update f o (some l)) (k.prev-put_next p l (some o)))

  pub appended-info : k.info appended ≡ k.info p
  appended-info =
      k.info-put_prev _ first (some o)
      ∙ k.info-put_next _ o (some first)
      ∙ k.info-put_prev _ o (some l)
      ∙ k.info-put_next p l (some o)

abbrev pub InRing : {P I : Type 0} → Linked P I → P → ℕ → List ℕ → Type 0
InRing k p first rest = Ring (k.next p) (k.prev p) first rest

pub appended-InRing :
    {P I : Type 0} (k : Linked P I) (p : P) (first o : ℕ) (rest : List ℕ)
    → InRing k p first rest
    → NotIn o (first ∷ rest)
    → InRing k (appended k p first o (last first rest)) first (rest ++ o ∷ [])
appended-InRing k p first o rest r n =
    subst₂ (λ f g. Ring f g first (rest ++ o ∷ []))
      (sym (appended-next k p first o (last first rest)))
      (sym (appended-prev k p first o (last first rest))) (Ring-insert r o n)

module _ {P I : Type 0} (k : Linked P I) (p : P) (o before after : ℕ) where
  -- What a book leaves when `o`, between `before` and `after`, has been taken out and its links
  -- cleared.
  abbrev pub unlinked : P
  unlinked =
      k.put_prev
        (k.put_next (k.put_prev (k.put_next p before (some after)) after (some before)) o none) o
        none

  unlinked-next : k.next unlinked ≡ update (unlinked_next (k.next p) before after) o none
  unlinked-next =
      k.next-put_prev _ o none
      ∙ k.next-put_next _ o none
      ∙ ap (λ f. update f o none)
          (k.next-put_prev _ after (some before) ∙ k.next-put_next p before (some after))

  unlinked-prev : k.prev unlinked ≡ update (unlinked_prev (k.prev p) before after) o none
  unlinked-prev =
      k.prev-put_prev _ o none
      ∙ ap (λ f. update f o none)
          (k.prev-put_next _ o none
            ∙ k.prev-put_prev _ after (some before)
            ∙ ap (λ f. update f after (some before)) (k.prev-put_next p before (some after)))

  pub unlinked-info : k.info unlinked ≡ k.info p
  unlinked-info =
      k.info-put_prev _ o none
      ∙ k.info-put_next _ o none
      ∙ k.info-put_prev _ after (some before)
      ∙ k.info-put_next p before (some after)

pub unlinked-InRing :
    {P I : Type 0} (k : Linked P I) (p : P) (o y : ℕ) (ys : List ℕ)
    → InRing k p o (y ∷ ys)
    → InRing k (unlinked k p o (last y ys) y) y ys
unlinked-InRing k p o y ys r =
    subst₂ (λ f g. Ring f g y ys) (sym (unlinked-next k p o (last y ys) y))
      (sym (unlinked-prev k p o (last y ys) y)) (Ring-remove_cleared o y ys r)

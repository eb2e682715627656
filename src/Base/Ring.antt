-- ===== src/Base/Ring.antt =====
-- Circular doubly linked lists: the shape of the price levels of a side and of the orders of a level
-- in both order books. `nxt` and `prv` give the links of each address.
use Prim.Native.Nat.{ℕ}
use mathlib.Core.Path.{◌≡◌, refl, sym, ◌∙◌, subst}
use mathlib.Core.Logic.{◌≢◌}
use mathlib.Core.Option.{Option, none, some}
use mathlib.Core.List.{List, [], ◌∷◌, ◌++◌, append-nil, append_assoc}
use nano_trade.Base.Store.{update, update_self, update-ne}
use nano_trade.Base.Lists.{NotIn, Distinct, last, last-ne}

abbrev pub Links : Type 0
Links = ℕ → Option ℕ

-- The links lead from `a` through `xs` to `z`, and back.
abbrev pub Seg : Links → Links → ℕ → List ℕ → ℕ → Type 0
Seg nxt prv a [] z = (nxt a ≡ some z) × (prv z ≡ some a)
Seg nxt prv a (x ∷ xs) z = (nxt a ≡ some x) × (prv x ≡ some a) × Seg nxt prv x xs z

-- The ring of the addresses `h ∷ xs`.
pub record Ring (nxt prv : Links) (h : ℕ) (xs : List ℕ) : Type 0 where
  pub links : Seg nxt prv h xs h
  pub distinct : Distinct (h ∷ xs)

module _ (nxt prv : Links) where
  pub Seg-append :
      (a y z : ℕ) (xs ys : List ℕ)
      → Seg nxt prv a xs y
      → Seg nxt prv y ys z
      → Seg nxt prv a (xs ++ y ∷ ys) z
  Seg-append a y z [] ys s t = (s.0, s.1, t)
  Seg-append a y z (x ∷ xs) ys s t = (s.0, s.1, Seg-append x y z xs ys s.2 t)

  pub Seg-left : (a y z : ℕ) (xs ys : List ℕ) → Seg nxt prv a (xs ++ y ∷ ys) z → Seg nxt prv a xs y
  Seg-left a y z [] ys s = (s.0, s.1)
  Seg-left a y z (x ∷ xs) ys s = (s.0, s.1, Seg-left x y z xs ys s.2)

  pub Seg-right : (a y z : ℕ) (xs ys : List ℕ) → Seg nxt prv a (xs ++ y ∷ ys) z → Seg nxt prv y ys z
  Seg-right a y z [] ys s = s.2
  Seg-right a y z (x ∷ xs) ys s = Seg-right x y z xs ys s.2

  pub Seg-last : (a z : ℕ) (xs : List ℕ) → Seg nxt prv a xs z → prv z ≡ some (last a xs)
  Seg-last a z [] s = s.1
  Seg-last a z (x ∷ xs) s = Seg-last x z xs s.2

  pub Seg-next_last : (a z : ℕ) (xs : List ℕ) → Seg nxt prv a xs z → nxt (last a xs) ≡ some z
  Seg-next_last a z [] s = s.0
  Seg-next_last a z (x ∷ xs) s = Seg-next_last x z xs s.2

  -- A write outside the segment leaves it.
  pub Seg-update_next :
      (i : ℕ) (v : Option ℕ) (a z : ℕ) (xs : List ℕ)
      → NotIn i (a ∷ xs)
      → Seg nxt prv a xs z
      → Seg (update nxt i v) prv a xs z
  Seg-update_next i v a z [] n s = (update-ne nxt i v a n.0 ∙ s.0, s.1)
  Seg-update_next i v a z (x ∷ xs) n s =
      (update-ne nxt i v a n.0 ∙ s.0, s.1, Seg-update_next i v x z xs n.1 s.2)

  pub Seg-update_prev :
      (i : ℕ) (v : Option ℕ) (a z : ℕ) (xs : List ℕ)
      → NotIn i xs
      → z ≢ i
      → Seg nxt prv a xs z
      → Seg nxt (update prv i v) a xs z
  Seg-update_prev i v a z [] n e s = (s.0, update-ne prv i v z e ∙ s.1)
  Seg-update_prev i v a z (x ∷ xs) n e s =
      (s.0, update-ne prv i v x n.0 ∙ s.1, Seg-update_prev i v x z xs n.1 e s.2)

  -- The end of a segment is led elsewhere.
  pub Seg-retarget :
      (a z w : ℕ) (xs : List ℕ)
      → Distinct (a ∷ xs)
      → NotIn w xs
      → Seg nxt prv a xs z
      → Seg (update nxt (last a xs) (some w)) (update prv w (some (last a xs))) a xs w
  Seg-retarget a z w [] d n s = (update_self nxt a (some w), update_self prv w (some a))
  Seg-retarget a z w (x ∷ xs) d n s = (
    update-ne nxt (last x xs) (some w) a (λ e. last-ne a x xs d.0.0 d.0.1 (sym e)) ∙ s.0,
    update-ne prv w (some (last x xs)) x n.0 ∙ s.1,
    Seg-retarget x z w xs d.1 n.1 s.2,
  )

-- The links of a ring as they stand after `x` has been put before its head.
abbrev pub linked_next : Links → (x h l : ℕ) → Links
linked_next nxt x h l = update (update nxt l (some x)) x (some h)

abbrev pub linked_prev : Links → (x h l : ℕ) → Links
linked_prev prv x h l = update (update prv x (some l)) h (some x)

-- The links after `x`, between `b` and `a`, has been taken out.
abbrev pub unlinked_next : Links → (b a : ℕ) → Links
unlinked_next nxt b a = update nxt b (some a)

abbrev pub unlinked_prev : Links → (b a : ℕ) → Links
unlinked_prev prv b a = update prv a (some b)

pub NotIn-append : (a x : ℕ) (xs : List ℕ) → NotIn a xs → x ≢ a → NotIn a (xs ++ x ∷ [])
NotIn-append a x [] n e = (e, tt)
NotIn-append a x (y ∷ ys) n e = (n.0, NotIn-append a x ys n.1 e)

pub Distinct-append : (x : ℕ) (xs : List ℕ) → Distinct xs → NotIn x xs → Distinct (xs ++ x ∷ [])
Distinct-append x [] d n = (tt, tt)
Distinct-append x (y ∷ ys) d n =
    (NotIn-append y x ys d.0 (λ e. n.0 (sym e)), Distinct-append x ys d.1 n.1)

module _ {nxt prv : Links} {h : ℕ} {xs : List ℕ} (r : Ring nxt prv h xs) where
  -- A new address put before the head is the last of the ring.
  pub Ring-insert :
      (x : ℕ)
      → NotIn x (h ∷ xs)
      → Ring (linked_next nxt x h (last h xs)) (linked_prev prv x h (last h xs)) h (xs ++ x ∷ [])
  Ring-insert x n = record {
    links =
        Seg-append _ _ h x h xs []
          (Seg-update_next _ _ x (some h) h x xs n (
            Seg-update_prev _ _ h (some x) h x xs r.distinct.0 (λ e. n.0 (sym e))
              (Seg-retarget nxt prv h h x xs r.distinct n.1 r.links)))
          (
            update_self (update nxt (last h xs) (some x)) x (some h),
            update_self (update prv x (some (last h xs))) h (some x),
          );
    distinct = Distinct-append x (h ∷ xs) r.distinct n;
  }

-- The ring without its head starts at the next address.
pub Ring-remove :
    {nxt prv : Links} (x y : ℕ) (ys : List ℕ)
    → Ring nxt prv x (y ∷ ys)
    → Ring (unlinked_next nxt (last y ys) y) (unlinked_prev prv (last y ys) y) y ys
Ring-remove {nxt} {prv} x y ys r = record {
  links = Seg-retarget nxt prv y x y ys r.distinct.1 r.distinct.1.0 r.links.2;
  distinct = r.distinct.1;
}

NotIn-append_right : (a : ℕ) (xs ys : List ℕ) → NotIn a (xs ++ ys) → NotIn a ys
NotIn-append_right a [] ys n = n
NotIn-append_right a (x ∷ xs) ys n = NotIn-append_right a xs ys n.1

NotIn-append_left : (a : ℕ) (xs ys : List ℕ) → NotIn a (xs ++ ys) → NotIn a xs
NotIn-append_left a [] ys n = tt
NotIn-append_left a (x ∷ xs) ys n = (n.0, NotIn-append_left a xs ys n.1)

Distinct-right : (xs ys : List ℕ) → Distinct (xs ++ ys) → Distinct ys
Distinct-right [] ys d = d
Distinct-right (x ∷ xs) ys d = Distinct-right xs ys d.1

Distinct-left : (xs ys : List ℕ) → Distinct (xs ++ ys) → Distinct xs
Distinct-left [] ys d = tt
Distinct-left (x ∷ xs) ys d = (NotIn-append_left x xs ys d.0, Distinct-left xs ys d.1)

-- Turning a list of distinct addresses.
Distinct-rotate : (xs ys : List ℕ) → Distinct (xs ++ ys) → Distinct (ys ++ xs)
Distinct-rotate [] ys d = rw append-nil d
Distinct-rotate (x ∷ xs) ys d = subst Distinct (append_assoc ys (x ∷ []) xs) (
    Distinct-rotate xs (ys ++ x ∷ [])
      (subst Distinct (append_assoc xs ys (x ∷ [])) (Distinct-append x (xs ++ ys) d.1 d.0)))

-- A ring may be read from any of its addresses.
pub Ring-rotate :
    {nxt prv : Links} (h y : ℕ) (xs ys : List ℕ)
    → Ring nxt prv h (xs ++ y ∷ ys)
    → Ring nxt prv y (ys ++ h ∷ xs)
Ring-rotate {nxt} {prv} h y xs ys r = record {
  links =
      Seg-append nxt prv y h y ys xs (Seg-right nxt prv h y h xs ys r.links)
        (Seg-left nxt prv h y h xs ys r.links);
  distinct = Distinct-rotate (h ∷ xs) (y ∷ ys) r.distinct;
}

-- Taking the head out and clearing its own links.
pub Ring-remove_cleared :
    {nxt prv : Links} (x y : ℕ) (ys : List ℕ)
    → Ring nxt prv x (y ∷ ys)
    → Ring
        (update (unlinked_next nxt (last y ys) y) x none)
        (update (unlinked_prev prv (last y ys) y) x none)
        y
        ys
Ring-remove_cleared x y ys r =
    let q = Ring-remove x y ys r in
    record {
      links =
          Seg-update_next _ _ x none y y ys r.distinct.0
            (Seg-update_prev _ _ x none y y ys r.distinct.0.1 r.distinct.0.0 q.links);
      distinct = q.distinct;
    }

-- The ring that is left when the address between `xs` and `ys` has been taken out of it.
pub Ring-remaining :
    {nxt prv : Links} (h x : ℕ) (xs ys : List ℕ)
    → ((y : ℕ) (zs : List ℕ) → ys ++ h ∷ xs ≡ y ∷ zs → Ring nxt prv y zs)
    → Ring nxt prv h (xs ++ ys)
Ring-remaining h x xs [] f = rw append-nil (f h xs refl)
Ring-remaining h x xs (y ∷ ys) f = Ring-rotate y h ys xs (f y (ys ++ h ∷ xs) refl)

-- ===== src/Common/Logger/Formats.antt =====
-- What a format string means: characters and places for arguments.
use nano_trade.Base.{
  ℕ, suc, ◌≡◌, ◌≢◌, refl, arith, ◌==◌, ==-ne, if◌then◌else◌, List, [], ◌∷◌, ◌++◌, sym, ◌∙◌, subst,
  Bool-cases, inl, inr,
}
use nano_trade.Base.Lists.{length}
use nano_trade.Base.Outcome.{Outcome, ok, fault, fatal}
use nano_trade.Common.LfQueue.{LfQueue, push, pushes}
use nano_trade.Common.Logger.{
  Text, LogElement, char, Value, element, Logger, percent, push_value, log,
}

pub data Piece : Type 0 where
  literal : ℕ → Piece
  hole : Piece

-- The format string: `%` for a place, `%%` for the character.
abbrev pub render : List Piece → Text
render [] = []
render (literal c ∷ ps) = if c == percent then percent ∷ percent ∷ render ps else c ∷ render ps
render (hole ∷ ps) = percent ∷ render ps

abbrev pub holes : List Piece → ℕ
holes [] = 0
holes (literal c ∷ ps) = holes ps
holes (hole ∷ ps) = suc (holes ps)

-- No `%` comes right after a place.
abbrev StartsPlain : List Piece → Type 0
StartsPlain [] = Unit
StartsPlain (literal c ∷ ps) = c ≢ percent
StartsPlain (hole ∷ ps) = ⊥

abbrev pub IsSeparated : List Piece → Type 0
IsSeparated [] = Unit
IsSeparated (literal c ∷ ps) = IsSeparated ps
IsSeparated (hole ∷ ps) = StartsPlain ps × IsSeparated ps

module _ {F W : Type 0} (pushed : Value F W → List (LogElement F W)) where
  -- The elements of the pieces, with the arguments in their places.
  abbrev pub fill : List Piece → List (Value F W) → List (LogElement F W)
  fill [] vs = []
  fill (literal c ∷ ps) vs = pushed (element (char c)) ++ fill ps vs
  fill (hole ∷ ps) [] = []
  fill (hole ∷ ps) (v ∷ vs) = pushed v ++ fill ps vs

  abbrev filled : List Piece → List (Value F W) → Logger F W → Outcome (Logger F W)
  filled ps vs l =
      if holes ps == length vs
      then ok (record l { queue = pushes l.queue (fill ps vs) })
      else fault fatal

  pushes-append :
      (q : LfQueue (LogElement F W)) (xs ys : List (LogElement F W))
      → pushes (pushes q xs) ys ≡ pushes q (xs ++ ys)
  unfolding pushes
  pushes-append q [] ys = refl
  pushes-append q (x ∷ xs) ys = pushes-append (push q x) xs ys

  -- A copied character before a text that has been dealt with.
  log-copied :
      (c : ℕ) (s : Text) (vs : List (Value F W)) (l : Logger F W)
      → c ≢ percent
      → log pushed (c ∷ s) vs l ≡ log pushed s vs (push_value pushed l (element (char c)))
  unfolding log
  log-copied c [] [] l n = rw (==-ne c percent n) refl
  log-copied c [] (v ∷ vs) l n = rw (==-ne c percent n) refl
  log-copied c (d ∷ s) [] l n = rw (==-ne c percent n) refl
  log-copied c (d ∷ s) (v ∷ vs) l n = rw (==-ne c percent n) refl

  log-escaped :
      (s : Text) (vs : List (Value F W)) (l : Logger F W)
      → log pushed (percent ∷ percent ∷ s) vs l
        ≡ log pushed s vs (push_value pushed l (element (char percent)))
  unfolding log
  log-escaped s [] l = refl
  log-escaped s (v ∷ vs) l = refl

  -- A place at the end, or before another character than `%`.
  log-hole :
      (ps : List Piece) (v : Value F W) (vs : List (Value F W)) (l : Logger F W)
      → StartsPlain ps
      → log pushed (percent ∷ render ps) (v ∷ vs) l
        ≡ log pushed (render ps) vs (push_value pushed l v)
  unfolding log
  log-hole [] v vs l h = refl
  log-hole (literal c ∷ ps) v vs l h = rw (==-ne c percent h) (rw (==-ne c percent h) refl)
  log-hole (hole ∷ ps) v vs l h = absurd h

  log-hole_missing :
      (ps : List Piece) (l : Logger F W)
      → StartsPlain ps
      → log pushed (percent ∷ render ps) [] l ≡ fault fatal
  unfolding log
  log-hole_missing [] l h = refl
  log-hole_missing (literal c ∷ ps) l h = rw (==-ne c percent h) (rw (==-ne c percent h) refl)
  log-hole_missing (hole ∷ ps) l h = absurd h

  -- What stands before the rest is pushed before it.
  filled-push_value :
      (v : Value F W) (ps qs : List Piece) (vs ws : List (Value F W)) (l : Logger F W)
      → (holes qs == length ws) ≡ (holes ps == length vs)
      → fill qs ws ≡ pushed v ++ fill ps vs
      → filled ps vs (push_value pushed l v) ≡ filled qs ws l
  unfolding push_value
  filled-push_value v ps qs vs ws l e f =
      rw (e, f, pushes-append l.queue (pushed v) (fill ps vs)) refl

  -- For a format in which no `%` comes right after a place for an argument: with as many arguments
  -- as places `log` pushes the elements of the text, in order, and with more or fewer it ends the
  -- process.
  pub log-filled :
      (ps : List Piece) (vs : List (Value F W)) (l : Logger F W)
      → IsSeparated ps
      → log pushed (render ps) vs l ≡ (
          if holes ps == length vs
          then ok (record l { queue = pushes l.queue (fill ps vs) })
          else fault fatal)
  unfolding log pushes
  log-filled [] [] l h = refl
  log-filled [] (v ∷ vs) l h = rw (==-ne 0 (suc (length vs)) (λ e. omega (arith, e))) refl
  log-filled (literal c ∷ ps) vs l h = elim (Bool-cases (c == percent)) [
    | inl e ↦
        let p : c ≡ percent = ground (arith, e) in
        subst (λ k. log pushed (render (literal k ∷ ps)) vs l ≡ filled (literal k ∷ ps) vs l)
          (sym p)
          (log-escaped (render ps) vs l
            ∙ log-filled ps vs (push_value pushed l (element (char percent))) h
            ∙ filled-push_value (element (char percent)) ps (literal percent ∷ ps) vs vs l refl
                refl)
    | inr e ↦ rw e (
        log-copied c (render ps) vs l (λ p. ground (arith, e, p))
        ∙ log-filled ps vs (push_value pushed l (element (char c))) h
        ∙ filled-push_value (element (char c)) ps (literal c ∷ ps) vs vs l refl refl)
  ]
  log-filled (hole ∷ ps) [] l h =
      log-hole_missing ps l h.0 ∙ rw (==-ne (suc (holes ps)) 0 (λ e. omega (arith, e))) refl
  log-filled (hole ∷ ps) (v ∷ vs) l h =
      log-hole ps v vs l h.0
      ∙ log-filled ps vs (push_value pushed l v) h.1
      ∙ filled-push_value v ps (hole ∷ ps) vs (v ∷ vs) l (ground arith) refl

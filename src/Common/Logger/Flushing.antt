-- ===== src/Common/Logger/Flushing.antt =====
-- What `log` and then `flushQueue` write into the file.
use nano_trade.Base.{
  ℕ, zero, suc, ◌+◌, ◌≤◌, ◌<◌, ◌≡◌, refl, sym, ap, ap₂, arith, true, false, ◌==◌, ==-ne, ==-self,
  List, [], ◌∷◌, ◌++◌, map, append-nil, append_assoc, ◌∙◌,
}
use nano_trade.Base.Lists.{length, length-append, All}
use nano_trade.Base.Slices.{take, take-enough}
use nano_trade.Base.Outcome.{ok, and_then}
use nano_trade.Common.LfQueue.{size, pushes}
use nano_trade.Common.LfQueue.Fifo.{
  IsValid, contents, contents-length, read-contents, pushes-contents,
}
use nano_trade.Common.Logger.{
  Text, LogElement, char, Value, element, c_string, std_string, Logger, Stream, c_str, log, opt_log,
  flush_queue, elements, opt_elements,
}
use nano_trade.Common.Logger.Formats.{
  Piece, literal, hole, render, holes, IsSeparated, fill, log-filled,
}

module _ {F W : Type 0} (out : Stream F W) where
  abbrev pub printed : List (LogElement F W) → Text
  printed [] = []
  printed (e ∷ es) = out.print e ++ printed es

  printed-append : (xs ys : List (LogElement F W)) → printed (xs ++ ys) ≡ printed xs ++ printed ys
  printed-append [] ys = refl
  printed-append (x ∷ xs) ys =
      ap (λ t. out.print x ++ t) (printed-append xs ys)
      ∙ sym (append_assoc (out.print x) (printed xs) (printed ys))

  -- A round of the logger's thread prints what is in its queue, oldest first, and leaves it empty.
  flush_queue-printed :
      (xs : List (LogElement F W)) (fuel : ℕ) (l : Logger F W)
      → IsValid l.queue
      → contents l.queue ≡ xs
      → length xs < fuel
      → (m : Logger F W) × (flush_queue out fuel l ≡ ok m)
        × (m.file ≡ l.file ++ printed xs)
        × (contents m.queue ≡ [])
  unfolding flush_queue size
  flush_queue-printed xs zero l v e h = absurd (omega arith)
  flush_queue-printed [] (suc fuel) l v e h =
      let none_left : (l.queue.num_elements == 0) ≡ true =
        ap (λ n. n == 0) (sym (contents-length l.queue) ∙ ap length e) in
      (l, rw (none_left, flush_queue) refl, sym (append-nil l.file), e)
  flush_queue-printed (x ∷ xs) (suc fuel) l v e h =
      let (shown, (q, steps, valid, rest)) = read-contents l.queue x xs v e in
      let (m, runs, text, empty) =
        flush_queue-printed xs fuel (record { file = l.file ++ out.print x; queue = q }) valid rest
          (omega arith) in
      let some_left : (l.queue.num_elements == 0) ≡ false =
        ==-ne l.queue.num_elements 0
          (λ z. omega (arith, z, contents-length l.queue, ap length e)) in
      (
        m,
        rw (some_left, shown, steps, flush_queue) runs,
        text ∙ append_assoc l.file (out.print x) (printed xs),
        empty,
      )

  -- What an argument is to look like.
  abbrev pub shown_as : (Text → Text) → Value F W → Text
  shown_as cut (element e) = out.print e
  shown_as cut (c_string t) = cut (c_str t)
  shown_as cut (std_string t) = cut (c_str t)

  -- The text that a format and its arguments stand for.
  abbrev pub text_of : (Text → Text) → List Piece → List (Value F W) → Text
  text_of cut [] vs = []
  text_of cut (literal c ∷ ps) vs = c ∷ text_of cut ps vs
  text_of cut (hole ∷ ps) [] = []
  text_of cut (hole ∷ ps) (v ∷ vs) = shown_as cut v ++ text_of cut ps vs

  printed-map_char : (t : Text) → printed (map char t) ≡ t
  printed-map_char [] = refl
  printed-map_char (c ∷ t) = rw (out.print_char c, printed-map_char t) refl

  printed-elements : (v : Value F W) → printed (elements v) ≡ shown_as (λ t. t) v
  unfolding elements
  printed-elements (element e) = append-nil (out.print e)
  printed-elements (c_string t) = printed-map_char (c_str t)
  printed-elements (std_string t) = printed-map_char (c_str t)

  printed-opt_elements : (v : Value F W) → printed (opt_elements v) ≡ shown_as (take 255) v
  unfolding opt_elements
  printed-opt_elements (element e) = append-nil (out.print e)
  printed-opt_elements (c_string t) = append-nil _ ∙ out.print_string (take 255 (c_str t))
  printed-opt_elements (std_string t) = append-nil _ ∙ out.print_string (take 255 (c_str t))

  -- Either of the loggers: `pushed` is its `pushValue`, `cut` what becomes of a text.
  module _ (pushed : Value F W → List (LogElement F W)) (cut : Text → Text)
      (prints : (v : Value F W) → printed (pushed v) ≡ shown_as cut v) where
    printed-fill :
        (ps : List Piece) (vs : List (Value F W)) → printed (fill pushed ps vs) ≡ text_of cut ps vs
    printed-fill [] vs = refl
    printed-fill (literal c ∷ ps) vs =
        printed-append (pushed (element (char c))) (fill pushed ps vs)
        ∙ rw (prints (element (char c)), out.print_char c, printed-fill ps vs) refl
    printed-fill (hole ∷ ps) [] = refl
    printed-fill (hole ∷ ps) (v ∷ vs) =
        printed-append (pushed v) (fill pushed ps vs) ∙ rw (prints v, printed-fill ps vs) refl

    log-printed :
        (ps : List Piece) (vs : List (Value F W)) (l : Logger F W) (fuel : ℕ)
        → IsSeparated ps
        → holes ps ≡ length vs
        → IsValid l.queue
        → l.queue.num_elements + length (fill pushed ps vs) ≤ l.queue.capacity
        → l.queue.capacity < fuel
        → (m : Logger F W) × (and_then (log pushed (render ps) vs l) (flush_queue out fuel) ≡ ok m)
          × (m.file ≡ l.file ++ printed (contents l.queue) ++ text_of cut ps vs)
          × (contents m.queue ≡ [])
    log-printed ps vs l fuel separated enough valid room h =
        let (valid', e) = pushes-contents l.queue (fill pushed ps vs) valid room in
        let (m, runs, text, empty) =
          flush_queue-printed (contents l.queue ++ fill pushed ps vs) fuel
            (record l { queue = pushes l.queue (fill pushed ps vs) }) valid' e
            (omega (
              arith,
              length-append (contents l.queue) (fill pushed ps vs),
              contents-length l.queue,
            )) in
        (
          m,
          rw (log-filled pushed ps vs l separated, enough, ==-self) runs,
          text
              ∙ ap (λ t. l.file ++ t)
                  (printed-append (contents l.queue) (fill pushed ps vs)
                    ∙ ap (λ t. printed (contents l.queue) ++ t) (printed-fill ps vs))
              ∙ sym (append_assoc l.file (printed (contents l.queue)) (text_of cut ps vs)),
          empty,
        )

  -- For a format in which no `%` comes right after a place for an argument, with as many arguments
  -- as places, and a valid queue with room: `log` and then the loop of the logger end, the file has
  -- got what was in the queue and then the text of the format with each argument in its place, a C
  -- string up to its first NUL, and the queue is empty.
  pub log-flush_queue :
      (ps : List Piece) (vs : List (Value F W)) (l : Logger F W) (fuel : ℕ)
      → IsSeparated ps
      → holes ps ≡ length vs
      → IsValid l.queue
      → l.queue.num_elements + length (fill elements ps vs) ≤ l.queue.capacity
      → l.queue.capacity < fuel
      → (m : Logger F W) × (and_then (log elements (render ps) vs l) (flush_queue out fuel) ≡ ok m)
        × (m.file ≡ l.file ++ printed (contents l.queue) ++ text_of (λ t. t) ps vs)
        × (contents m.queue ≡ [])
  log-flush_queue = log-printed elements (λ t. t) printed-elements

  -- A text that fits in the array of OptLogger.
  abbrev pub IsShort : Value F W → Type 0
  IsShort (element e) = Unit
  IsShort (c_string t) = length (c_str t) ≤ 255
  IsShort (std_string t) = length (c_str t) ≤ 255

  shown_as-IsShort : (v : Value F W) → IsShort v → shown_as (take 255) v ≡ shown_as (λ t. t) v
  shown_as-IsShort (element e) h = refl
  shown_as-IsShort (c_string t) h = take-enough 255 (c_str t) h
  shown_as-IsShort (std_string t) h = take-enough 255 (c_str t) h

  text_of-IsShort :
      (ps : List Piece) (vs : List (Value F W))
      → All IsShort vs
      → text_of (take 255) ps vs ≡ text_of (λ t. t) ps vs
  text_of-IsShort [] vs h = refl
  text_of-IsShort (literal c ∷ ps) vs h = ap (◌∷◌ c) (text_of-IsShort ps vs h)
  text_of-IsShort (hole ∷ ps) [] h = refl
  text_of-IsShort (hole ∷ ps) (v ∷ vs) h =
      ap₂ ◌++◌ (shown_as-IsShort v h.0) (text_of-IsShort ps vs h.1)

  -- For a format in which no `%` comes right after a place for an argument, with as many arguments
  -- as places, and texts of at most 255 characters: from the same file, and with empty valid queues
  -- that have room, Logger and OptLogger both end and leave the same file.
  pub opt_log-eq-log :
      (ps : List Piece) (vs : List (Value F W)) (l o : Logger F W) (fuel : ℕ)
      → IsSeparated ps
      → holes ps ≡ length vs
      → All IsShort vs
      → IsValid l.queue
      → IsValid o.queue
      → contents l.queue ≡ []
      → contents o.queue ≡ []
      → o.file ≡ l.file
      → length (fill elements ps vs) ≤ l.queue.capacity
      → length (fill opt_elements ps vs) ≤ o.queue.capacity
      → l.queue.capacity < fuel
      → o.queue.capacity < fuel
      → (m n : Logger F W) × (and_then (log elements (render ps) vs l) (flush_queue out fuel)
          ≡ ok m)
        × (and_then (opt_log (render ps) vs o) (flush_queue out fuel) ≡ ok n)
        × (n.file ≡ m.file)
  opt_log-eq-log ps vs l o fuel separated enough short vl vo el eo same roomy_l roomy_o fl fo =
      let (m, runs, text, _) =
        log-printed elements (λ t. t) printed-elements ps vs l fuel separated enough vl
          (omega (arith, contents-length l.queue, ap length el)) fl in
      let (n, runs', text', _) =
        log-printed opt_elements (take 255) printed-opt_elements ps vs o fuel separated enough vo
          (omega (arith, contents-length o.queue, ap length eo)) fo in
      (m, n, runs, runs', text' ∙ rw (el, eo, same, text_of-IsShort ps vs short) refl ∙ sym text)

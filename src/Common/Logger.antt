-- ===== src/Common/Logger.antt =====
-- common/logging.h and opt_logging.h: the loggers. A text is the list of the codes of its characters,
-- without the final NUL; how a stream prints a number is a parameter. The thread of the logger is the
-- loop `flush_queue` over what is in the queue.
pub mod Formats
pub mod Flushing
mod Tests
use nano_trade.Base.{
  ℕ, zero, suc, ◌-◌, ◌*◌, ◌^◌, ◌≡◌, Bool, true, false, ◌&&◌, not, ◌==◌, if◌then◌else◌, Option, none,
  some, List, [], ◌∷◌, ◌++◌, map,
}
use nano_trade.Base.Int.{ℤ}
use nano_trade.Base.Slices.{take}
use nano_trade.Base.Outcome.{Outcome, ok, fault, fatal, out_of_fuel, and_then}
use nano_trade.Common.LfQueue.{LfQueue, size, get_next_to_read, update_read_index, push, pushes}

abbrev pub Text : Type 0
Text = List ℕ

abbrev pub log_queue_size : ℕ
log_queue_size = 8 * 2 ^ 20

-- `LogElement`: the tag `LogType` with its member of the union. `string` is the one of OptLogger.
pub data LogElement (F W : Type 0) : Type 0 where
  char : ℕ → LogElement F W
  integer long_integer long_long_integer : ℤ → LogElement F W
  unsigned_integer unsigned_long_integer unsigned_long_long_integer : ℕ → LogElement F W
  float : F → LogElement F W
  double : W → LogElement F W
  string : Text → LogElement F W

-- An argument of `log`, for which an overload of `pushValue` is chosen.
pub data Value (F W : Type 0) : Type 0 where
  element : LogElement F W → Value F W
  c_string std_string : Text → Value F W

-- What `while (*value)` reads: the characters before the first NUL.
unfoldable pub c_str : Text → Text
c_str [] = []
c_str (c ∷ cs) = let rest = c_str cs in if c == 0 then [] else c ∷ rest

-- `pushValue` of Logger, as the elements that it writes.
unfoldable pub elements : {F W : Type 0} → Value F W → List (LogElement F W)
elements (element e) = e ∷ []
elements (c_string t) = map char (c_str t)
elements (std_string t) = map char (c_str t)

-- `pushValue` of OptLogger: `strncpy` into an array of 256 characters that ends in a NUL.
unfoldable pub opt_elements : {F W : Type 0} → Value F W → List (LogElement F W)
opt_elements (element e) = e ∷ []
opt_elements (c_string t) = string (take 255 (c_str t)) ∷ []
opt_elements (std_string t) = string (take 255 (c_str t)) ∷ []

pub record Logger (F W : Type 0) : Type 0 where
  pub file : Text
  pub queue : LfQueue (LogElement F W)

abbrev pub percent : ℕ
percent = b'%'

module _ {F W : Type 0} (pushed : Value F W → List (LogElement F W)) where
  unfoldable pub push_value : Logger F W → Value F W → Logger F W
  push_value l v = record l { queue = pushes l.queue (pushed v) }

  -- `log`, in both overloads: `s` is what is left of the format, and the values what is left of the
  -- arguments. At the last character `*(s + 1)` is the NUL.
  unfoldable pub log : Text → List (Value F W) → Logger F W → Outcome (Logger F W)
  log [] [] l = ok l
  log [] (v ∷ vs) l = fault fatal
  log (c ∷ []) [] l = if c == percent then fault fatal else ok (push_value l (element (char c)))
  log (c ∷ []) (v ∷ vs) l =
      let substituted = log [] vs (push_value l v) in
      if c == percent then substituted else fault fatal
  log (c ∷ d ∷ cs) [] l =
      let escaped = log cs [] (push_value l (element (char d))) in
      let copied = log (d ∷ cs) [] (push_value l (element (char c))) in
      if c == percent then (if d == percent then escaped else fault fatal) else copied
  log (c ∷ d ∷ cs) (v ∷ vs) l =
      let escaped = log cs (v ∷ vs) (push_value l (element (char d))) in
      let substituted = log (d ∷ cs) vs (push_value l v) in
      let copied = log (d ∷ cs) (v ∷ vs) (push_value l (element (char c))) in
      if c == percent then (if d == percent then escaped else substituted) else copied

-- `log` of OptLogger.
abbrev pub opt_log : {F W : Type 0} → Text → List (Value F W) → Logger F W → Outcome (Logger F W)
opt_log = log opt_elements

-- `file_ << ...` for the member that the tag names.
pub record Stream (F W : Type 0) : Type 0 where
  pub print : LogElement F W → Text
  pub print_char : (c : ℕ) → print (char c) ≡ c ∷ []
  pub print_string : (t : Text) → print (string t) ≡ t

module _ {F W : Type 0} (out : Stream F W) where
  -- The inner loop of `flushQueue`.
  unfoldable pub flush_queue : ℕ → Logger F W → Outcome (Logger F W)
  flush_queue zero l = fault out_of_fuel
  flush_queue (suc fuel) l = elim (if size l.queue == 0 then none else get_next_to_read l.queue) [
    | none ↦ ok l
    | some e ↦
        and_then (update_read_index l.queue)
          λ q. flush_queue fuel (record { file = l.file ++ out.print e; queue = q })
  ]

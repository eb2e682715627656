-- ===== src/Common/Logger/Tests.antt =====
-- The loggers at a short line, with numbers that are all printed as a sharp.
use nano_trade.Base.{ℕ, ◌≡◌, refl, arith, List, [], ◌∷◌, ◌++◌}
use nano_trade.Base.Int.{pos}
use nano_trade.Base.Outcome.{ok, and_then}
use nano_trade.Common.LfQueue.{init, pushes}
use nano_trade.Common.LfQueue.Fifo.{IsValid, contents}
use nano_trade.Common.Logger.{
  Text, LogElement, Value, Logger, Stream, c_str, log, opt_log, flush_queue, elements, opt_elements,
}
use nano_trade.Common.Logger.Formats.{Piece, render, fill, log-filled}
use nano_trade.Common.Logger.Flushing.{printed, text_of, log-flush_queue, opt_log-eq-log}

abbrev print : LogElement ℕ ℕ → Text
print (LogElement.char c) = c ∷ []
print (LogElement.string t) = t
print (LogElement.integer n) = b'#' ∷ []
print (LogElement.long_integer n) = b'#' ∷ []
print (LogElement.long_long_integer n) = b'#' ∷ []
print (LogElement.unsigned_integer n) = b'#' ∷ []
print (LogElement.unsigned_long_integer n) = b'#' ∷ []
print (LogElement.unsigned_long_long_integer n) = b'#' ∷ []
print (LogElement.float f) = b'#' ∷ []
print (LogElement.double d) = b'#' ∷ []

abbrev out : Stream ℕ ℕ
out = record { print = print; print_char = λ c. refl; print_string = λ t. refl }

abbrev fresh : Logger ℕ ℕ
unfolding init
fresh = record { file = []; queue = init (LogElement.char 0) 8 }

-- "%:%%" with a text and a number.
abbrev line : List Piece
line = Piece.hole ∷ Piece.literal b':' ∷ Piece.literal b'%' ∷ Piece.hole ∷ []

abbrev values : List (Value ℕ ℕ)
values =
    Value.c_string (b'o' ∷ b'k' ∷ 0 ∷ b'x' ∷ []) ∷ Value.element (LogElement.integer (pos 7)) ∷ []

fresh-IsValid : IsValid fresh.queue
unfolding init
fresh-IsValid = record {
  small = omega arith;
  read_in = omega arith;
  fits = omega arith;
  write_at = refl;
}

log-flush_queue_example :
    (m : Logger ℕ ℕ) × (and_then (log elements (render line) values fresh) (flush_queue out 9)
      ≡ ok m)
    × (m.file
        ≡ fresh.file ++ printed out (contents fresh.queue) ++ text_of out (λ t. t) line values)
    × (contents m.queue ≡ [])
unfolding init elements c_str
log-flush_queue_example =
    log-flush_queue out line values fresh 9 ((λ e. omega (arith, e)), (tt, tt)) refl fresh-IsValid
      (omega arith) (omega arith)

opt_log-eq-log_example :
    (m n : Logger ℕ ℕ) × (and_then (log elements (render line) values fresh) (flush_queue out 9)
      ≡ ok m)
    × (and_then (opt_log (render line) values fresh) (flush_queue out 9) ≡ ok n)
    × (n.file ≡ m.file)
unfolding init elements opt_elements c_str
opt_log-eq-log_example =
    opt_log-eq-log out line values fresh fresh 9 ((λ e. omega (arith, e)), (tt, tt)) refl
      (omega arith, (tt, tt)) fresh-IsValid fresh-IsValid refl refl refl (omega arith) (omega arith)
      (omega arith) (omega arith)

log-filled_example :
    log elements (render line) values fresh
    ≡ ok (record fresh { queue = pushes fresh.queue (fill elements line values) })
log-filled_example = log-filled elements line values fresh ((λ e. omega (arith, e)), (tt, tt))

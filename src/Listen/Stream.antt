-- ===== src/Listen/Stream.antt =====
-- What the code asks of a connection's bytes: `io.ReadFull`, one `Read` of one byte, and `Write`.
-- A stream to read is the bytes that will arrive and the error that a read meets behind them; a
-- writer is any function that answers how much it took.
use abstraction_identity.Base.{
  ℕ, zero, suc, List, [], ◌∷◌, leb, if◌then◌else◌, length, take, drop, Option, some,
}
use abstraction_identity.Errors.{Err, sentinel, eof, unexpected_eof}

pub record Input : Type 0 where
  pub pending : List ℕ
  pub ending : Err

-- `full` has the bytes and what is left; `short` how many bytes came before the error.
pub data Full : Type 0 where
  full : List ℕ → Input → Full
  short : ℕ → Err → Full

abbrev pub short_error : ℕ → Err → Err
short_error zero e = e
short_error (suc n) (sentinel eof) = sentinel unexpected_eof
short_error (suc n) e = e

-- `io.ReadFull`: io.EOF only where no byte came, and io.ErrUnexpectedEOF where the stream ended
-- behind some.
unfoldable pub read_full : ℕ → Input → Full
read_full n i =
    if leb n (length i.pending)
    then full (take n i.pending) (record i { pending = drop n i.pending })
    else short (length i.pending) (short_error (length i.pending) i.ending)

-- One `Read` into a buffer of one byte.
pub data One : Type 0 where
  one : ℕ → Input → One
  nothing : Option Err → One

unfoldable pub read_one : Input → One
read_one i = elim i.pending [
  | [] ↦ nothing (some i.ending)
  | b ∷ bs ↦ one b (record i { pending = bs })
]

-- The count that a `Write` returns; a Go int can be negative.
pub data Taken : Type 0 where
  negative : Taken
  taken : ℕ → Taken

pub record Writer (S : Type 0) : Type 0 where
  pub write : S → List ℕ → Taken × Option Err × S

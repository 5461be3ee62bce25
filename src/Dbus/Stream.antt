-- ===== src/Dbus/Stream.antt =====
-- The reading from the socket of tools/src/dbus_client.c. What the socket will deliver is a list of
-- what `poll` and `read` return, one after the other; where the list ends nothing more arrives.
use lg_magic.Prelude.Result.{Result, ok, err}
use lg_magic.Prelude.{
  ℕ, ◌-◌, Option, none, some, List, [], ◌∷◌, ◌++◌, ◌==◌, leb, if◌then◌else◌, length, take, drop,
}

-- Bytes that arrive (one at the least), a `read` that a signal interrupts, the end of the
-- connection, an error, and 25 s with nothing.
pub data Arrival : Type 0 where
  arrived : ℕ → List ℕ → Arrival
  interrupted closed broken silent : Arrival

-- The errors of `refill` and of `read_line`.
pub data ReadError : Type 0 where
  connection_closed read_failed timed_out overlong_line : ReadError

-- `rbuf` with the `rn` bytes in it, and what will arrive. A `read` takes 4096 bytes at the most, and
-- only where `rbuf` is empty; here neither is bounded, so what holds of all streams holds of those.
pub record Stream : Type 0 where
  pub rbuf : List ℕ
  pub coming : List Arrival

-- The bytes that arrive before the stream ends, and how it ends.
unfoldable pub arriving : List Arrival → List ℕ
arriving [] = []
arriving (arrived b bs ∷ later) = (b ∷ bs) ++ arriving later
arriving (interrupted ∷ later) = arriving later
arriving (closed ∷ later) = []
arriving (broken ∷ later) = []
arriving (silent ∷ later) = []

unfoldable pub ending : List Arrival → ReadError
ending [] = timed_out
ending (arrived b bs ∷ later) = ending later
ending (interrupted ∷ later) = ending later
ending (closed ∷ later) = connection_closed
ending (broken ∷ later) = read_failed
ending (silent ∷ later) = timed_out

-- All the bytes that can be read.
unfoldable pub all_bytes : Stream → List ℕ
all_bytes s = s.rbuf ++ arriving s.coming

-- `refill`, and the rounds of the loop of `readn` from there on, where the buffer is empty: `got` is
-- read and `n` bytes are to be read, one or more.
unfoldable pub readn_from : List Arrival → List ℕ → ℕ → Result ReadError (List ℕ × Stream)
readn_from [] got n = err timed_out
readn_from (arrived b bs ∷ later) got n =
    let more = readn_from later (got ++ b ∷ bs) (n - length (b ∷ bs)) in
    if leb n (length (b ∷ bs))
    then ok (got ++ take n (b ∷ bs), record { rbuf = drop n (b ∷ bs); coming = later })
    else more
readn_from (interrupted ∷ later) got n = readn_from later got n
readn_from (closed ∷ later) got n = err connection_closed
readn_from (broken ∷ later) got n = err read_failed
readn_from (silent ∷ later) got n = err timed_out

-- `readn`
unfoldable pub readn : ℕ → Stream → Result ReadError (List ℕ × Stream)
readn n s =
    if leb n (length s.rbuf)
    then ok (take n s.rbuf, record { rbuf = drop n s.rbuf; coming = s.coming })
    else readn_from s.coming s.rbuf (n - length s.rbuf)

-- The bytes before the first '\n', and those behind it; `none` is that there is no '\n'.
unfoldable pub cut_line : List ℕ → Option (List ℕ × List ℕ)
cut_line [] = none
cut_line (b ∷ bs) =
    let further = cut_line bs in
    if b == 10
    then some ([], bs)
    else elim further [ none ↦ none | some (line, rest) ↦ some (b ∷ line, rest) ]

-- A '\r' at the end taken away.
unfoldable pub strip_return : List ℕ → List ℕ
strip_return [] = []
strip_return (b ∷ []) = if b == 13 then [] else b ∷ []
strip_return (b ∷ c ∷ cs) = b ∷ strip_return (c ∷ cs)

-- One round of the loop of `read_line`, with `line` read and the buffer `rbuf`: the end, or the
-- line with the buffer added.
pub data Round : Type 0 where
  line_ended : List ℕ → List ℕ → Round
  line_goes_on : List ℕ → Round
  line_too_long : Round

unfoldable pub line_round : ℕ → List ℕ → List ℕ → Round
line_round bufsz line rbuf = elim (cut_line rbuf) [
  | none ↦
      if leb (bufsz - 1) (length (line ++ rbuf)) then line_too_long else line_goes_on (line ++ rbuf)
  | some (front, rest) ↦
      if leb (bufsz - 1) (length (line ++ front))
      then line_too_long
      else line_ended (strip_return (line ++ front)) rest
]

-- The loop of `read_line` from a `refill` on.
unfoldable pub line_from : ℕ → List Arrival → List ℕ → Result ReadError (List ℕ × Stream)
line_from bufsz [] line = err timed_out
line_from bufsz (arrived b bs ∷ later) line = elim (line_round bufsz line (b ∷ bs)) [
  | line_ended whole rest ↦ ok (whole, record { rbuf = rest; coming = later })
  | line_goes_on longer ↦ line_from bufsz later longer
  | line_too_long ↦ err overlong_line
]
line_from bufsz (interrupted ∷ later) line = line_from bufsz later line
line_from bufsz (closed ∷ later) line = err connection_closed
line_from bufsz (broken ∷ later) line = err read_failed
line_from bufsz (silent ∷ later) line = err timed_out

-- `read_line`
unfoldable pub read_line : ℕ → Stream → Result ReadError (List ℕ × Stream)
read_line bufsz s = elim s.rbuf [
  | [] ↦ line_from bufsz s.coming []
  | b ∷ bs ↦ elim (line_round bufsz [] (b ∷ bs)) [
    | line_ended whole rest ↦ ok (whole, record { rbuf = rest; coming = s.coming })
    | line_goes_on longer ↦ line_from bufsz s.coming longer
    | line_too_long ↦ err overlong_line
  ]
]

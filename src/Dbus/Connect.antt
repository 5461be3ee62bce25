-- ===== src/Dbus/Connect.antt =====
-- `pick_unix_socket` and `dbus_connect` of tools/src/dbus_client.c. The socket is a parameter:
-- whether `socket` and `connect` succeed, whether `write_all` can write the bytes, and what will
-- arrive. A path of 108 bytes or more, which the code copies over the end of `sun_path`, reaches the
-- parameter as it is.
use lg_magic.Dbus.Call.{CallError}
use lg_magic.Dbus.Client.{DbusClient, say_hello}
use lg_magic.Dbus.Stream.{Arrival, ReadError, Stream, read_line}
use lg_magic.Json.Parser.{strip}
use lg_magic.Json.Writer.{hex_digit}
use lg_magic.Kernel.Probe.{codes}
use lg_magic.Prelude.Result.{Result, ok, err, ◌>>=◌, ◌>>◌, fail_if}
use lg_magic.Prelude.{
  ℕ, ◌+◌, ◌*◌, ◌/◌, ◌%◌, Bool, true, false, ◌||◌, ◌&&◌, not, Option, none, some, List, [], ◌∷◌,
  ◌++◌, ◌==◌, ltb, leb, if◌then◌else◌, length, take, drop,
}

-- The bytes before the first `stop`.
unfoldable pub until : ℕ → List ℕ → List ℕ
until stop [] = []
until stop (b ∷ bs) = if b == stop then [] else b ∷ until stop bs

-- The addresses between the `;`: the first, and the others.
unfoldable pub addresses : List ℕ → List ℕ × List (List ℕ)
addresses [] = ([], [])
addresses (b ∷ bs) =
    let (first, others) = addresses bs in
    if b == b';' then ([], first ∷ others) else (b ∷ first, others)

-- Whether the first bytes of `address` are those of `word`.
unfoldable pub begins : List ℕ → List ℕ → Bool
begins word address = elim (strip word address) [ none ↦ false | some rest ↦ true ]

-- The value of one address, with `*abstract`. 13 bytes of "unix:abstract=" are compared and passed
-- over.
unfoldable pub socket_of : List ℕ → Option (Bool × List ℕ)
socket_of address =
    if ltb 10 (length address) && begins (codes "unix:path=") address
    then some (false, until b',' (drop 10 address))
    else if ltb 13 (length address) && begins (take 13 (codes "unix:abstract=")) address
    then some (true, until b',' (drop 13 address))
    else none

-- The loop of `pick_unix_socket`.
unfoldable pub first_socket : List (List ℕ) → Option (Bool × List ℕ)
first_socket [] = none
first_socket (address ∷ others) = elim (socket_of address) [
  | some found ↦ some found
  | none ↦ first_socket others
]

-- `pick_unix_socket`: `*abstract` and the name of the socket; `none` is -1.
unfoldable pub pick_unix_socket : List ℕ → Option (Bool × List ℕ)
pick_unix_socket address = let (first, others) = addresses address in first_socket (first ∷ others)

-- The digits of each byte, in base 16.
unfoldable pub hex_bytes : List ℕ → List ℕ
hex_bytes [] = []
hex_bytes (b ∷ bs) = hex_digit (b / 16 % 16) ∷ hex_digit (b % 16) ∷ hex_bytes bs

-- The line of the authentication, of the uid in decimal; `none` is that it does not fit.
unfoldable pub auth_line : List ℕ → Option (List ℕ)
auth_line dec =
    if leb 24 (length dec) || ltb 64 (1 + 14 + 2 * length dec + 2)
    then none
    else some (0 ∷ (codes "AUTH EXTERNAL " ++ (hex_bytes dec ++ 13 ∷ 10 ∷ [])))

-- The errors of `dbus_connect`.
pub data ConnectError : Type 0 where
  unsupported_address cannot_open_socket cannot_connect cannot_talk : ConnectError
  cannot_read : ReadError → ConnectError
  rejected unexpected_answer : ConnectError
  hello_failed : CallError → ConnectError
  hello_rejected : ConnectError

-- The address: the argument, the environment, or the system bus.
unfoldable pub bus_address : Option (List ℕ) → Option (List ℕ) → List ℕ
bus_address (some []) from_env = codes "unix:path=/run/dbus/system_bus_socket"
bus_address (some (b ∷ bs)) from_env = b ∷ bs
bus_address none (some (b ∷ bs)) = b ∷ bs
bus_address none (some []) = codes "unix:path=/run/dbus/system_bus_socket"
bus_address none none = codes "unix:path=/run/dbus/system_bus_socket"

-- The socket that is connected to; 512 is the size of `path`.
unfoldable pub socket_name : List ℕ → Result ConnectError (Bool × List ℕ)
socket_name address = elim (pick_unix_socket address) [
  | none ↦ err unsupported_address
  | some (abstract, name) ↦
      fail_if (length name == 0 || leb 512 (length name)) unsupported_address >> ok (abstract, name)
]

-- The answer to the authentication.
unfoldable pub check_answer : List ℕ → Result ConnectError (Unit {0})
check_answer line =
    if begins (codes "OK ") line
    then ok tt
    else if begins (codes "REJECTED") line
    then err rejected
    else err unexpected_answer

-- What `say_hello` returns, with the errors of this module.
unfoldable pub hello_result : Result CallError (Option DbusClient) → Result ConnectError DbusClient
hello_result (err e) = err (hello_failed e)
hello_result (ok none) = err hello_rejected
hello_result (ok (some c)) = ok c

-- What `read_line` gives, with the errors of this module; 512 is the size of `line`.
unfoldable pub answer_line : Stream → Result ConnectError (List ℕ × Stream)
answer_line s = elim (read_line 512 s) [ err e ↦ err (cannot_read e) | ok got ↦ ok got ]

unfoldable pub line_or : Option (List ℕ) → Result ConnectError (List ℕ)
line_or none = err cannot_talk
line_or (some line) = ok line

module _ (write_all : List ℕ → Bool) (open_socket : Bool) (connects : Bool → List ℕ → Bool)
    (coming : List Arrival) where
  -- `dbus_connect`, of the address and that of the environment, and the uid in decimal.
  unfoldable pub dbus_connect :
      Option (List ℕ) → Option (List ℕ) → List ℕ → Result ConnectError DbusClient
  dbus_connect address from_env dec =
      socket_name (bus_address address from_env) >>= λ (abstract, name).
      fail_if (not open_socket) cannot_open_socket
      >> fail_if (not (connects abstract name)) cannot_connect
      >> (line_or (auth_line dec) >>= λ line.
          fail_if (not (write_all line)) cannot_talk
          >> (answer_line (record { rbuf = []; coming = coming }) >>= λ (answer, stream).
              check_answer answer
              >> fail_if (not (write_all (codes "BEGIN" ++ 13 ∷ 10 ∷ []))) cannot_talk
              >> hello_result (
                  say_hello write_all (record {
                    connected = true;
                    serial = 0;
                    stream = stream;
                    err_name = none;
                    err_msg = none;
                    sent = (codes "BEGIN" ++ 13 ∷ 10 ∷ []) ∷ line ∷ [];
                  }))))

-- `dbus_disconnect`
unfoldable pub dbus_disconnect : DbusClient → DbusClient
dbus_disconnect c = record {
  connected = false;
  serial = 0;
  stream = record { rbuf = []; coming = [] };
  err_name = none;
  err_msg = none;
  sent = c.sent;
}

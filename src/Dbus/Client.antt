-- ===== src/Dbus/Client.antt =====
-- `bus_call`, `dbus_call` and `say_hello` of tools/src/dbus_client.c. Whether `write_all` can write
-- the bytes is a parameter.
use lg_magic.Dbus.Call.{
  CallError, not_connected, unsupported_input, needs_arguments, cannot_marshal, cannot_write, Reply,
  returned, error_reply, await,
}
use lg_magic.Dbus.Stream.{Stream, all_bytes}
use lg_magic.Dbus.Writer.{build_call}
use lg_magic.Dbus.{DbusArg}
use lg_magic.Kernel.Probe.{codes}
use lg_magic.Prelude.Result.{Result, ok, err, ◌>>=◌, ◌>>◌, fail_if}
use lg_magic.Prelude.{
  ℕ, suc, ◌+◌, ◌%◌, Bool, ◌||◌, ◌&&◌, not, Option, none, some, List, [], ◌∷◌, ◌==◌, length, all,
}

-- `struct dbus_client`: whether `fd` is open, the last serial, what is read and will arrive, and the
-- last error. What is written is added to `sent`.
pub record DbusClient : Type 0 where
  pub connected : Bool
  pub serial : ℕ
  pub stream : Stream
  pub err_name : Option (List ℕ)
  pub err_msg : Option (List ℕ)
  pub sent : List (List ℕ)

-- The types of arguments that `bus_call` takes.
unfoldable pub is_input : ℕ → Bool
is_input c = c == b's' || (c == b'd' || c == b'u')

-- The checks of `bus_call` before it writes; no arguments are `args == NULL`.
unfoldable pub check_call : Bool → List ℕ → List DbusArg → Result CallError (Unit {0})
check_call connected sig args =
    fail_if (not connected) not_connected
    >> fail_if (not (all is_input sig)) unsupported_input
    >> fail_if (not (length sig == 0) && length args == 0) needs_arguments

-- `c->serial++`, in 32 bits.
unfoldable pub next_serial : ℕ → ℕ
next_serial serial = (serial + 1) % 4294967296

unfoldable pub built : Option (List ℕ) → Result CallError (List ℕ)
built none = err cannot_marshal
built (some msg) = ok msg

-- The client behind the reply, with the error kept. After a failure the client is not modelled.
unfoldable pub with_reply : DbusClient → ℕ → List ℕ → Reply → Stream → DbusClient
with_reply c serial msg (returned value) stream = record {
  connected = c.connected;
  serial = serial;
  stream = stream;
  err_name = none;
  err_msg = none;
  sent = msg ∷ c.sent;
}
with_reply c serial msg (error_reply name text) stream = record {
  connected = c.connected;
  serial = serial;
  stream = stream;
  err_name = some name;
  err_msg = some text;
  sent = msg ∷ c.sent;
}

-- What `await` ends with; it has as many rounds as bytes that can come, and one more.
unfoldable pub reply_of :
    Option (Result CallError (Reply × Stream)) → Result CallError (Reply × Stream)
reply_of none = err CallError.reply_too_large
reply_of (some r) = r

module _ (write_all : List ℕ → Bool) where
  -- `bus_call`; `dest`, `path`, `iface` and `method` come first.
  unfoldable pub bus_call :
      List ℕ
      → List ℕ
      → List ℕ
      → List ℕ
      → DbusClient
      → List ℕ
      → List DbusArg
      → Result CallError (Reply × DbusClient)
  bus_call dest path iface method c sig args =
      let serial = next_serial c.serial in
      check_call c.connected sig args
      >> (built (build_call serial dest path iface method sig args) >>= λ msg.
          fail_if (not (write_all msg)) cannot_write
          >> (reply_of (
                await (codes "org.lgmagic.Error.Failed") (suc (length (all_bytes c.stream))) serial
                  c.stream)
              >>= λ (reply, stream). ok (reply, with_reply c serial msg reply stream)))

  -- `dbus_call`
  unfoldable pub dbus_call :
      DbusClient → List ℕ → List ℕ → List DbusArg → Result CallError (Reply × DbusClient)
  dbus_call c method sig args =
      bus_call (codes "org.lgmagic") (codes "/org/lgmagic/Manager") (codes "org.lgmagic.Manager")
        method c sig args

  -- `say_hello`; `none` is that the bus rejects it with an error reply.
  unfoldable pub say_hello : DbusClient → Result CallError (Option DbusClient)
  say_hello c =
      bus_call (codes "org.freedesktop.DBus") (codes "/org/freedesktop/DBus")
        (codes "org.freedesktop.DBus") (codes "Hello") c [] []
      >>= λ (reply, after). elim reply [
        | returned value ↦ ok (some after)
        | error_reply name text ↦ ok none
      ]

-- ===== src/Dbus.antt =====
-- The types of tools/src/dbus_client.c and tools/include/dbus_client.h. A text is the list of its
-- bytes, without the NUL at the end. Allocation does not fail.
pub mod Writer
pub mod Reader
pub mod Fields
pub mod Stream
pub mod Call
pub mod Client
pub mod Connect
pub mod Padding
pub mod Values
pub mod Bodies
pub mod Growth
pub mod Header
pub mod FieldReading
pub mod FieldList
pub mod Arriving
pub mod Layout
pub mod Reading
pub mod Frame
pub mod Inside
pub mod RoundTrip
pub mod Chunks
pub mod Ending
pub mod Replies
pub mod Rounds
pub mod Handshake
pub mod Examples
use lg_magic.Prelude.{ℕ, List}

-- `struct dbus_arg`; `d` holds the 64 bits of the double.
pub record DbusArg : Type 0 where
  pub type : ℕ
  pub s : List ℕ
  pub d : ℕ
  pub u : ℕ

-- `struct dbus_value`, with the types that the replies have.
pub data DbusValue : Type 0 where
  value_empty : DbusValue
  value_string : List ℕ → DbusValue
  value_string_array : List (List ℕ) → DbusValue
  value_variant : List ℕ → DbusValue → DbusValue

-- How reading goes wrong: the bytes are not as they must be, or the code reads behind the end of
-- the part of the message it is to read; what follows then is not modelled.
pub data Fault : Type 0 where
  malformed outside : Fault

-- ===== src/Lib.antt =====
-- The driver, daemon and tools of the LG Magic Remote.
--
-- A report of the remote goes through `lgmagic_raw_event` of the kernel module, which reports
-- events on two input devices. The daemon pairs the two devices of each remote, reads their events
-- as frames, and passes the frames through its pipeline: the button map of the profile in force,
-- the wheel, and the air mouse, to a virtual keyboard and a virtual mouse. The profiles come from
-- a device configuration, a TOML document that the daemon reads, changes over the bus and writes;
-- the state file holds the profile of each device. The tools measure calibrations, which are JSON
-- files for the daemon and 32-byte blobs for the kernel module.
--
-- Files, and what they are about (paths from the root of the repository):
-- Kernel       kernel/lg_magic_main.c, the handler of the reports; Kernel/Buttons the button table,
--              Kernel/Airmouse kernel/lg_magic_airmouse.c, Kernel/Probe the search for a calibration
--              when a remote is probed
-- Keymap       tools/src/keymap.c; Keymap/Tables its three tables
-- Toml         tools/src/toml.c: its value tree, Toml/Lexer, Toml/Scan and Toml/Parser the parser,
--              Toml/Writer the writer; Toml/Strings, Toml/Values, Toml/Keys, Toml/Lines and
--              Toml/Document the reading of what is written, Toml/Depth how deep a tree may be
-- Profile      tools/src/profiles.c, a profile: set, validate, merge
-- DeviceConfig tools/src/profiles.c, the device configuration: read, validate, ensure a profile;
--              DeviceConfig/Writing its writing
-- Airmouse     tools/src/airmouse.c, and calib_apply of tools/src/calib.c
-- Uinput       the emitters of tools/src/uinput.c
-- Pipeline     tools/src/daemon_pipeline.c; Pipeline/Refinement its table of held keys as a map
-- Pairing      tools/src/pairing.c
-- Evdev        the read loop of tools/src/evdev.c, which makes frames of events
-- Hidraw       the table and the report reader of tools/src/hidraw.c
-- Config       the loading of the settings in tools/src/config.c
-- Json         tools/src/json.c: Json/Parser, Json/Writer and Json/Access its three parts, Json/Fuel,
--              Json/Loops and Json/Termination the end of the parser, Json/Strings, Json/Steps,
--              Json/Nesting and Json/RoundTrip the reading of what is written
-- Calibration  the files and the blobs of tools/src/calib.c
-- DaemonConfig tools/src/daemon_config.c, the files of a device; DaemonConfig/State the state,
--              DaemonConfig/Saving the saving of a profile
-- Devices      tools/src/daemon_devices.c: Devices/Open and Devices/Rescan its remotes, Devices/Handle
--              the devices that are polled, Devices/Reload the reload, Devices/Lifecycle its start and
--              end; Devices/Ready, Devices/Grabs, Devices/Freed, Devices/Kept, Devices/Layout and
--              Devices/Timing what is proved of them
-- Dbus         tools/src/dbus_client.c: Dbus/Writer the messages of calls, Dbus/Reader and Dbus/Fields
--              the reading of bodies and of header fields, Dbus/Stream the reading from the socket,
--              Dbus/Call and Dbus/Client the calls, Dbus/Connect the connection; Dbus/Padding,
--              Dbus/Values, Dbus/Bodies, Dbus/Growth, Dbus/Header, Dbus/Layout, Dbus/FieldReading, Dbus/FieldList,
--              Dbus/Arriving, Dbus/Reading, Dbus/Frame, Dbus/Inside and Dbus/RoundTrip the reading
--              of what is written,
--              Dbus/Chunks, Dbus/Ending, Dbus/Rounds, Dbus/Replies and Dbus/Handshake what is proved of
--              the stream, the loops, the replies and the connection
-- Prelude      what the others share: native numbers, integers, texts, results, floats
--
-- A function of the source is the definition of its name, without the prefix of its file where
-- that says nothing (`lgmagic_raw_event` is Kernel.raw_event, `keymap_name_to_code`
-- Keymap.name_to_code). A struct is a record with the source's fields; an array with its count is
-- a list; a pointer to a struct that a function changes is an argument and a result. A function
-- that fails returns a Result with an error that names the cause, or an Option. What a function
-- does to the system is a list in its result: the events that the kernel module reports, the
-- writes to the virtual devices, and the calls by which the daemon opens and closes devices, with
-- what the system answered. What the system answers is an argument, a function of the calls
-- before.
--
-- Floating point is the record Prelude.Float.Floats: two types, the operations and comparisons
-- that the source uses, and the conversions in the places where C makes them. No law is assumed,
-- so each theorem holds for any arithmetic, NaN included, but for the agreement of the two checks
-- of a blob, which names the laws of conversions that it needs; the examples run on whole numbers.
--
-- Most loops are over lists and are structural recursion. The calls of the parser of JSON each cost a
-- unit of fuel. `json_parse` hands out two units for each byte and two more: a value
-- takes up a byte at least, and between two values there is one call of a loop. The loops of the bus
-- client over texts, fields and messages, and those of the parser of TOML over keys, items and lines,
-- have one round for each byte and one more; each round takes up a byte at least.
--
-- Bounds of the source are written out: 32 held keys, 20 bytes of a report, 32 bytes of a
-- calibration, 63 bytes of a MAC, codes of 16 bits, 16 keys of a frame, JSON of depth 32, paths of
-- 4096 bytes, 2000 ms between scans, bus messages of 2^20 bytes, lines of 512 bytes. A bus address, a
-- line or a message is a list of bytes; the socket is a list of what `poll` and `read` return.
--
-- Not modelled: failure of allocation, the debug messages, the writing of files, sockets, ioctls
-- and threads. The texts of errors are constructors. `request_firmware`, `strtod`, what `snprintf`
-- writes of a number, `fabsf`, the values of the kernel's key macros, what a file holds and the
-- acceptance of a write are arguments; the pipeline takes the loading of a calibration, and the
-- devices the loading of a configuration, as arguments too; the examples of the devices give them
-- concrete functions. Outside are the dotted lookups in TOML values, the daemon's bus,
-- the changing of settings, the numerical fits and filters, and the commands.
pub mod Prelude
pub mod Keymap
pub mod Kernel
pub mod Toml
pub mod Profile
pub mod DeviceConfig
pub mod Uinput
pub mod Airmouse
pub mod Pipeline
pub mod Pairing
pub mod Evdev
pub mod Hidraw
pub mod Config
pub mod Json
pub mod Calibration
pub mod DaemonConfig
pub mod Dbus
pub mod Devices

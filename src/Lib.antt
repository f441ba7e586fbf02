-- ===== src/Lib.antt =====
-- ThermoCheck: an app that keeps entry points of temperature and humidity in Firebase and on the device
-- and draws them, with the C code that is built into it. Modelled are the app's own Swift code, in
-- ThermoCheck/ThermoCheck; the Protocol Buffers codec in ThermoCheck/Pods/nanopb, whose functions read
-- messages from a stream of bytes and write them to one; and the base64 of the web socket, fbase64.c, in
-- ThermoCheck/Pods/FirebaseDatabase/FirebaseDatabase/Sources/third_party/SocketRocket.
--
-- The parts, and the modules that model them:
--
--   Message     pb.h: the texts of errors, and PB_SET_ERROR, which keeps the first one.
--   Input       pb_decode.c: `pb_istream_t` (`IStream`), `buf_read`, `pb_read`, `pb_readbyte` and
--               `pb_istream_from_buffer`.
--   Output      pb_encode.c: `pb_ostream_t` (`OStream`), `buf_write`, `pb_write`,
--               `pb_ostream_from_buffer` and PB_OSTREAM_SIZING.
--   Varint      pb_decode.c: `pb_decode_varint32_eof`, `pb_decode_varint32`, `pb_decode_varint` and
--               `pb_skip_varint`.
--   Encode      pb_encode.c: `pb_encode_varint`, `pb_encode_svarint`, `pb_encode_fixed32`,
--               `pb_encode_fixed64`, `pb_encode_tag`, `pb_encode_tag_for_field`, `pb_encode_string`,
--               `safe_read_bool` and the field encoders `pb_enc_*` of numbers.
--   Wire        pb_decode.c: `pb_skip_string`, `pb_decode_tag`, `pb_skip_field`, `read_raw_value`,
--               `pb_make_string_substream` and `pb_close_string_substream`.
--   Decode      pb_decode.c: `pb_decode_svarint`, `pb_decode_fixed32`, `pb_decode_fixed64`,
--               `pb_decode_bool` and the field decoders `pb_dec_*` of numbers.
--   Data        both files: fields of bytes and strings, `pb_dec_bytes`, `pb_dec_string`,
--               `pb_dec_fixed_length_bytes`, `allocate_field`, `pb_enc_bytes` and `pb_enc_string`.
--   Memory      memory as bytes by address, with what C stores and loads through pointers.
--   Fields      pb.h and pb_common.c: `pb_field_t` (`Field`) and the iterator over a table of fields.
--   Messages    pb_decode.c: the decoding of whole messages to structures in memory. Below it, `Defaults`
--               has `pb_message_set_to_defaults` and the iterator of an extension, `Release` `pb_release`
--               and `pb_release_union_field`, `Values` `PB_DECODERS`, `pb_dec_submessage` and
--               `decode_static_field`, `Pointers` `decode_pointer_field`, `Callbacks`
--               `decode_callback_field`, `Fields` `decode_field` and extensions, and `Decode`
--               `pb_decode_noinit`, `pb_decode` and the forms of it.
--   Writing     pb_encode.c: the encoding of whole messages from structures in memory. Below it, `Defaults`
--               has `pb_check_proto3_default_value`, `Values` `PB_ENCODERS`, `encode_array` and
--               `pb_encode_submessage` on its body, `Fields` `encode_field` and extensions, and `Encode`
--               `pb_encode` and the forms of it.
--   RoundTrip   the encoders and the decoders together.
--   Base64      fbase64.c: `f_b64_ntop` and `f_b64_pton` on buffers of bytes.
--   App         the app. Below it, `EntryPoint` has models/EntryPoint.swift, `Sql` database/SQLCommands.swift
--               and DatabaseSQL.swift, `AddPoint`, `Chart`, `Login` and `Register` the controllers of these
--               names in controllers, the last two with utils/Authentication.swift, of which `Session` has
--               the rest, with utils/Router.swift.
--   Common      bits and words as arithmetic, Boolean tests, lists, and the monad `Exec`.
--   Tests       runs of the functions, and the theorems at concrete arguments.
--
-- Modules below these hold proofs, each named for what it proves: `Sound` and `Robust` that memory
-- outside the buffers is not touched and loops end, `Progress` that bytes are taken, `Tables` and
-- `Search` where the iterator goes, `Steady` that an encoder writes the same on every stream,
-- `Nesting` and `Recursion` that the recursion over submessages ends, `Required` how the required
-- fields are counted, `Substreams` and the `Tidy` modules that the parts of `pb_decode` leave the
-- stream in order, `Emits` which bytes are written, `Groups` which number a varint is and
-- which text bytes are, `Marks` and `Missing` which required fields are marked as seen, `Log` what the
-- table holds, `Pickers` what is picked, `Saved` what is saved, `Shown` what is drawn, `Labels` that
-- the axis has its labels, `Once` and `Settles` how sign-ins overlap and end, `Busy` when progress is
-- shown, and `SignedOut` what follows a sign-out.
--
-- A C function that returns `bool` and changes a stream is a function from the stream to an `Outcome`
-- and the stream: `ok` with what is stored through the destination pointers where true is returned,
-- `failed` where false is, and `fault` where memory outside a buffer is touched, which C leaves
-- undefined. What the destination holds after a return of false is not modelled. Where the code calls
-- `pb_write` or `pb_read`, so does the model; the streams' callbacks are parameters, and what
-- pb_decode.h asks of a callback is `IsHonest`.
--
-- Integers are natural numbers below a power of two, with the wrap-around written out: `size_t` and
-- `pb_uint64_t` have 64 bits, `uint32_t` 32, `uint_fast8_t` 8; signed numbers are their words in two's
-- complement. The code is compiled as the xcconfig files have it, without PB_BUFFER_ONLY,
-- PB_NO_ERRMSG and PB_WITHOUT_64BIT.
--
-- A loop recurses on fuel: eleven rounds in `pb_decode_varint`, whose test ends it at `bitpos` 70, ten
-- in `fill`, the size of its buffer, `max_size` rounds in `raw_varint`, and elsewhere one more than
-- the bytes left or the bytes to skip, since each round takes one. Running out is a `fault` (in
-- `raw_varint` the code's own return of false), which the theorems on streams in order exclude.
--
-- A message is decoded on a `State`, the stream with the memory of the process. `pb_message_set_to_defaults`
-- and `pb_release` recurse on the depth of structures in one another, and on the number of extensions,
-- both of which the `Env` bounds; going further is a `fault`. `pb_decode_noinit` recurses on one more than
-- the bytes left, since a submessage takes the byte of its length. The loops over a table have the length
-- of the table as fuel. A local variable that the code takes the address of lies at an address from
-- 2 ^ 64 on. `Env` has what is outside: the tables by their addresses, the user's functions by theirs,
-- `realloc` and `free`. A callback's own pointer is read once for a field.
--
-- Encoding reads the memory of a `Context`, which no encoder changes. `pb_encode` recurses on the depth of
-- structures in one another, which the `Context` bounds as well as the number of extensions. Of a string
-- behind a pointer it has how many bytes can be read; a search for the terminator behind them is a
-- `fault`, and so is the `which` of a oneof without one, which C reads from a local variable.
--
-- `f_b64_ntop` and `f_b64_pton` run on the buffer that they store to, as a list of bytes; a return of -1 is
-- `failed`, and another `int` its 32-bit word. Their loops recurse on the bytes and on the string.
--
-- A controller of the app is a record of what its methods change, and a method gives the new record, or
-- `none` where the program stops at an index out of range or at `nil`. What the user taps and what
-- Firebase, Facebook and the main queue do next are events in any order: a list for the chart, with the
-- labels that Charts asks for, and a step relation, `Step` with `Reach`, for the login screen, and
-- `Move` with `Moves` for that of registration. SQLite (`Sqlite`), casts from `Any` (`Anything`) and the
-- predicate of an e-mail address are parameters. A text is the list of its characters, an `Int` an
-- integer.
--
-- Not modelled: the bounds of the structure that a message is decoded to or encoded from, of which the
-- table is to tell the truth, since all of `Memory` can be stored to and read; pb_encode_negative_varint,
-- which is not compiled; layout, drawing and animations of the app, and its start;
-- the overflow of `Int`; and the other pods, which are libraries of other projects that the app calls.
pub mod Common
pub mod Message
pub mod Input
pub mod Output
pub mod Memory
pub mod Fields
pub mod Varint
pub mod Encode
pub mod Wire
pub mod Decode
pub mod RoundTrip
pub mod Base64
pub mod App
pub mod Data
pub mod Messages
pub mod Writing
pub mod Tests

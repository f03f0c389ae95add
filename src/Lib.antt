-- ===== src/Lib.antt =====
-- The core of jsoniter, a JSON library: the Iterator that reads JSON from a byte slice or, chunk by
-- chunk, from an io.Reader, and the Stream that writes JSON into a buffer in front of an io.Writer.
--
-- An Iterator is a window [head, tail) of a buffer. Every reader of a value goes through nextToken,
-- readByte or a loop over the window, and calls loadMore at its end; an error is kept in the
-- iterator and does not stop the caller. A Stream appends to its buffer; Write and Flush give the
-- buffer to the writer, which may take only a part of it.
--
--   * Base: the names shared by all modules, lists measured by native numbers, tests, signed counters.
--   * Iter (iter.go): Defs has the state and the operations under the names of the code in lower
--     case (nextToken is next_token); View has the bytes that remain, window and reader together.
--   * Integer (iter_int.go): Defs has readUint32 and readUint64, one code at two widths, with
--     the unrolled rounds (fast_path) and the loop (read_digits); Sized has ReadUint8 to ReadInt64.
--   * Stream (stream.go, stream_int.go): Defs has the stream, Integers the integer writers.
--   * Text (iter_str.go, stream_str.go): Write has the string writers, Read has ReadString;
--     Escapes has the escapes of JSON apart from the code.
--   * Skip (iter_skip.go, iter_skip_sloppy.go, iter_array.go, iter_object.go): literals, captures,
--     ReadArray, readObjectStart, isObjectEnd, skipNumber and skipString.
--   * Field (iter_object.go): readFieldHash and calcHash, by which a field of a struct is found.
--   * Array (iter_array.go): ReadArrayCB, its callback a function on the iterator and on a state.
--   * Raw (rawstring.go, iter_str.go): RawString and ReadRawString, which gives the bytes between
--     the quotes as they are, a view of the buffer where they are in one window. view_in is such
--     a view once the buffer has been read on, which a load overwrites and Realize keeps.
--   * Object (iter_object.go): ReadObject, ReadObjectRaw, ReadObjectRawCB and ReadObjectCB. A
--     callback gets its RawString as a function of the iterator at which it looks at it.
--   * Float (iter_float.go): the float readers, one code for both types (Floats has the operations of
--     a type), with the fast path over the window and the slow one through strconv.ParseFloat.
--   * Strict (iter_skip.go, iter_skip_strict.go, config.go): Skip as it is built by default, and Valid;
--     Grammar has the numbers of JSON, and Value its values.
--   * Codec (reflect_native.go, reflect_slice.go, reflect_array.go, reflect_optional.go,
--     reflect_map.go, reflect_json_number.go, reflect_json_raw_message.go): the decoder of a
--     value is a function from the value it finds to the one it leaves, where the code has a
--     pointer; Reads says what it does to a text, and RoundTrips is the law of a codec that reads
--     what it writes.
--   * Struct (reflect_struct_decoder.go, reflect_struct_encoder.go): Defs has the decoders by
--     hash, General the one by name, Bindings the names, Create the choice of the decoder, Encode
--     the encoders; Lookup has the field of a name apart from the code. A map from names is a
--     list of pairs, in the order in which Go goes through it, whichever that is.
--   * RoundTrip: readers and writers together. Tests: the theorems at concrete inputs.
--
-- State is passed explicitly: a method returns its result and the iterator or stream after it. A
-- byte is a natural number below 256. An unsigned value of w bits is a natural number with its
-- wrap-around written as a remainder. io.Reader and io.Writer are lists of the results that their
-- calls will give; past its end a reader returns io.EOF and a writer takes everything. A load
-- uses up a result of the reader, so a loop that loads has as fuel one more than the results that
-- are left; the string reader adds the number of bytes that remain, as each of its rounds uses a
-- result or a byte. The loops of ReadArrayCB, ReadObjectRawCB and of the decoders of slices,
-- arrays and structs have the number of bytes that remain: a round reads a comma. Skip calls
-- itself a level deeper each time, and incrementDepth stops that behind maxDepth levels, so it
-- has maxDepth + 1. Floats, strconv, math/big and Go's unicode packages are parameters.
--
-- Not modelled: the float writers and times, the codecs of interfaces and marshalers, how a codec
-- is made of a run time type (reflect2's fields and types are parameters of the codecs), Any,
-- most of the configuration and of the pools, the extensions of extra/. Go panics on an index
-- outside a buffer; the theorems take an iterator in bounds.
pub mod Base
pub mod Iter
pub mod Integer
pub mod Stream
pub mod Text
pub mod Skip
pub mod RoundTrip
pub mod Tests
pub mod Field
pub mod Array
pub mod Raw
pub mod Object
pub mod Float
pub mod Strict
pub mod Codec
pub mod Struct

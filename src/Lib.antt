-- ===== src/Lib.antt =====
-- parquet-rs: the layer that turns values into bits and back, and the schemas of files, modelled from
-- the Rust source and proved against independent descriptions of the formats.
--
-- Parts of the program, and the files that model them:
--   src/util/bit_util.rs
--     the helpers on single integers and bit arrays       BitUtil/Scalar.antt
--     `BitWriter`                                          BitUtil/Writer.antt
--     `BitReader`                                          BitUtil/Reader.antt
--     `BitReader::get_batch`                               BitUtil/Batch.antt
--     `put_vlq_int`, `get_vlq_int`, zigzag                 BitUtil/Vlq.antt
--   src/util/bit_packing.rs
--     `unpack32` and its unrolled functions                BitPacking.antt, BitPacking/Bits*.antt
--   src/encodings/rle.rs
--     `RleEncoder`                                         Encodings/Rle/Encoder.antt
--     `RleDecoder`: `set_data`, `reload`, `get`            Encodings/Rle/Decoder.antt
--     `RleDecoder::get_batch`                              Encodings/Rle/Batch.antt
--     the format that both speak                           Encodings/Rle/Format.antt
--   src/encodings/levels.rs
--     `max_buffer_size`                                    Encodings/Levels.antt
--     `LevelEncoder`                                       Encodings/Levels/Encoder.antt
--     `LevelDecoder`                                       Encodings/Levels/Decoder.antt
--   src/encodings/encoding.rs
--     the loop of `write_indices`                          Encodings/Rle/Encoder.antt
--   src/util/memory.rs
--     `BufferPtr`                                          Memory.antt
--   src/basic.rs
--     the enumerations and the orders of statistics        Basic.antt
--     their `Display` and `FromStr`                        Basic/Texts.antt
--     the conversions from and to Thrift                   Basic/Thrift.antt
--   src/schema/types.rs
--     `Type` and `BasicTypeInfo`                           Schema/Types.antt
--     `PrimitiveTypeBuilder`, `GroupTypeBuilder`           Schema/Builder.antt, Schema/GroupBuilder.antt
--     `to_thrift` and `from_thrift`                        Schema/Thrift.antt
--     `ColumnDescriptor`, `SchemaDescriptor`, `build_tree` Schema/Columns.antt
--     `Type::check_contains`                               Schema/Contains.antt
-- The modules below a component hold its proofs. BitUtil/RoundTrip joins the writer and the reader,
-- Encodings/Rle/Encode relates what `RleEncoder` was given to the runs in its writer, and
-- Encodings/Levels/RoundTrip and BitRoundTrip join the encoder and the decoder of levels.
-- Prelude.antt passes on the library names and the helpers that all of them share.
--
-- Correspondence. A struct is a record with the same fields, and a method on `&mut self` a function
-- that returns the new record beside its result. A panic (a failed assertion, an index or a slice
-- out of range, `unimplemented!`) is the result `panic` of `Outcome`, or `none` where nothing else
-- can fail; fuel that is used up is the result `running`, which no call of the code returns. A
-- `Vec<u8>` is the list of its bytes, and so is a `ByteBufferPtr` where only its content is read;
-- where the code slices one, it is a record with its start. A `u64` is a number below 2 ^ 64 with
-- its wrap-around written out, an `i64` its 64-bit pattern. A generic value of type `T` is the
-- number whose little-endian bytes the machine stores, and `T` itself is given by `size_of`, at
-- most eight bytes for `get_value`; the copies of raw bytes between them suppose a little-endian
-- machine, as the code does. The raw pointer of `unpack32` is a function from word offsets to
-- words: whether the pointed-to memory is long enough is the caller's affair, as it is in the code.
--
-- The Thrift enumerations of the crate `parquet_format` have the variants that src/basic.rs matches
-- on; its `SchemaElement` has the fields that src/schema/types.rs writes and reads. The texts of
-- error messages are left out. The limit of a decimal's digits in a FIXED_LEN_BYTE_ARRAY, which the
-- code computes in floating point, is an argument of `build` and `from_thrift`: theorems that do
-- not depend on it hold for any. The code's own is `max_precision` of Schema/Builder/Limit.antt. An
-- `i16` level of a column is its 16-bit pattern.
--
-- Bounds. Buffers are shorter than 2 ^ 60 bytes, so that bit offsets fit a `usize`; offsets are
-- exact. `put_vlq_int` loops nine times at most, as a `u64` is below 128 after nine shifts by
-- seven. `get_vlq_int` fails its assertion at the eleventh byte at the latest, and has a fuel of
-- eleven. `RleDecoder::get` loads runs until one holds a value: every run takes a byte at least, so
-- the number of bytes, and two, is fuel enough, as its theorem shows; `get_batch` needs as many
-- rounds again as its slice has places. Where the loop of the code would not end, on data that are
-- cut off inside a bit-packed run, the fuel runs out whatever its amount. `log2` halves a `u64`, so
-- 64 rounds are enough. `from_thrift_helper` calls itself at a larger index only and the loop of
-- `from_thrift` goes forward, so one more than the number of elements is fuel enough: the result is
-- never `running`.
--
-- Not modelled: the thrift transport, files and the compression codecs (libraries that the code
-- only calls), the memory tracker and `Buffer` of src/util/memory.rs, `get_batch_with_dict` of
-- src/encodings/rle.rs, the parser and the printer of schemas, and the layers above: the other
-- encodings, columns, records and files.
pub mod Prelude
pub mod Basic
pub mod BitPacking
pub mod BitUtil
pub mod Encodings
pub mod Memory
pub mod Schema

-- ===== src/Basic/Thrift.antt =====
-- src/basic.rs: the conversions from and to the enumerations of the Thrift definition, which the
-- crate `parquet_format` generates: their variants are those that the conversions match on.
pub mod Inverse
use parquet_rs.Prelude.{Option, none, some}
use parquet_rs.Basic.{PhysicalType, LogicalType, Repetition, Encoding, Compression, PageType}

pub data ThriftType : Type 0 where
  boolean int32 int64 int96 float double : ThriftType
  byte_array fixed_len_byte_array : ThriftType

pub data ConvertedType : Type 0 where
  utf8 map map_key_value list enum decimal : ConvertedType
  date time_millis time_micros timestamp_millis timestamp_micros uint_8 : ConvertedType
  uint_16 uint_32 uint_64 int_8 int_16 int_32 : ConvertedType
  int_64 json bson interval : ConvertedType

pub data FieldRepetitionType : Type 0 where
  required optional repeated : FieldRepetitionType

pub data ThriftEncoding : Type 0 where
  plain plain_dictionary rle bit_packed delta_binary_packed delta_length_byte_array : ThriftEncoding
  delta_byte_array rle_dictionary : ThriftEncoding

pub data CompressionCodec : Type 0 where
  uncompressed snappy gzip lzo brotli lz4 : CompressionCodec
  zstd : CompressionCodec

pub data ThriftPageType : Type 0 where
  data_page index_page dictionary_page data_page_v2 : ThriftPageType

unfoldable pub type_from_thrift : ThriftType → PhysicalType
type_from_thrift ThriftType.boolean = PhysicalType.boolean
type_from_thrift ThriftType.int32 = PhysicalType.int32
type_from_thrift ThriftType.int64 = PhysicalType.int64
type_from_thrift ThriftType.int96 = PhysicalType.int96
type_from_thrift ThriftType.float = PhysicalType.float
type_from_thrift ThriftType.double = PhysicalType.double
type_from_thrift ThriftType.byte_array = PhysicalType.byte_array
type_from_thrift ThriftType.fixed_len_byte_array = PhysicalType.fixed_len_byte_array

unfoldable pub type_to_thrift : PhysicalType → ThriftType
type_to_thrift PhysicalType.boolean = ThriftType.boolean
type_to_thrift PhysicalType.int32 = ThriftType.int32
type_to_thrift PhysicalType.int64 = ThriftType.int64
type_to_thrift PhysicalType.int96 = ThriftType.int96
type_to_thrift PhysicalType.float = ThriftType.float
type_to_thrift PhysicalType.double = ThriftType.double
type_to_thrift PhysicalType.byte_array = ThriftType.byte_array
type_to_thrift PhysicalType.fixed_len_byte_array = ThriftType.fixed_len_byte_array

unfoldable pub logical_type_from_thrift : Option ConvertedType → LogicalType
logical_type_from_thrift none = LogicalType.none_type
logical_type_from_thrift (some ConvertedType.utf8) = LogicalType.utf8
logical_type_from_thrift (some ConvertedType.map) = LogicalType.map
logical_type_from_thrift (some ConvertedType.map_key_value) = LogicalType.map_key_value
logical_type_from_thrift (some ConvertedType.list) = LogicalType.list
logical_type_from_thrift (some ConvertedType.enum) = LogicalType.enum
logical_type_from_thrift (some ConvertedType.decimal) = LogicalType.decimal
logical_type_from_thrift (some ConvertedType.date) = LogicalType.date
logical_type_from_thrift (some ConvertedType.time_millis) = LogicalType.time_millis
logical_type_from_thrift (some ConvertedType.time_micros) = LogicalType.time_micros
logical_type_from_thrift (some ConvertedType.timestamp_millis) = LogicalType.timestamp_millis
logical_type_from_thrift (some ConvertedType.timestamp_micros) = LogicalType.timestamp_micros
logical_type_from_thrift (some ConvertedType.uint_8) = LogicalType.uint_8
logical_type_from_thrift (some ConvertedType.uint_16) = LogicalType.uint_16
logical_type_from_thrift (some ConvertedType.uint_32) = LogicalType.uint_32
logical_type_from_thrift (some ConvertedType.uint_64) = LogicalType.uint_64
logical_type_from_thrift (some ConvertedType.int_8) = LogicalType.int_8
logical_type_from_thrift (some ConvertedType.int_16) = LogicalType.int_16
logical_type_from_thrift (some ConvertedType.int_32) = LogicalType.int_32
logical_type_from_thrift (some ConvertedType.int_64) = LogicalType.int_64
logical_type_from_thrift (some ConvertedType.json) = LogicalType.json
logical_type_from_thrift (some ConvertedType.bson) = LogicalType.bson
logical_type_from_thrift (some ConvertedType.interval) = LogicalType.interval

unfoldable pub logical_type_to_thrift : LogicalType → Option ConvertedType
logical_type_to_thrift LogicalType.none_type = none
logical_type_to_thrift LogicalType.utf8 = some ConvertedType.utf8
logical_type_to_thrift LogicalType.map = some ConvertedType.map
logical_type_to_thrift LogicalType.map_key_value = some ConvertedType.map_key_value
logical_type_to_thrift LogicalType.list = some ConvertedType.list
logical_type_to_thrift LogicalType.enum = some ConvertedType.enum
logical_type_to_thrift LogicalType.decimal = some ConvertedType.decimal
logical_type_to_thrift LogicalType.date = some ConvertedType.date
logical_type_to_thrift LogicalType.time_millis = some ConvertedType.time_millis
logical_type_to_thrift LogicalType.time_micros = some ConvertedType.time_micros
logical_type_to_thrift LogicalType.timestamp_millis = some ConvertedType.timestamp_millis
logical_type_to_thrift LogicalType.timestamp_micros = some ConvertedType.timestamp_micros
logical_type_to_thrift LogicalType.uint_8 = some ConvertedType.uint_8
logical_type_to_thrift LogicalType.uint_16 = some ConvertedType.uint_16
logical_type_to_thrift LogicalType.uint_32 = some ConvertedType.uint_32
logical_type_to_thrift LogicalType.uint_64 = some ConvertedType.uint_64
logical_type_to_thrift LogicalType.int_8 = some ConvertedType.int_8
logical_type_to_thrift LogicalType.int_16 = some ConvertedType.int_16
logical_type_to_thrift LogicalType.int_32 = some ConvertedType.int_32
logical_type_to_thrift LogicalType.int_64 = some ConvertedType.int_64
logical_type_to_thrift LogicalType.json = some ConvertedType.json
logical_type_to_thrift LogicalType.bson = some ConvertedType.bson
logical_type_to_thrift LogicalType.interval = some ConvertedType.interval

unfoldable pub repetition_from_thrift : FieldRepetitionType → Repetition
repetition_from_thrift FieldRepetitionType.required = Repetition.required
repetition_from_thrift FieldRepetitionType.optional = Repetition.optional
repetition_from_thrift FieldRepetitionType.repeated = Repetition.repeated

unfoldable pub repetition_to_thrift : Repetition → FieldRepetitionType
repetition_to_thrift Repetition.required = FieldRepetitionType.required
repetition_to_thrift Repetition.optional = FieldRepetitionType.optional
repetition_to_thrift Repetition.repeated = FieldRepetitionType.repeated

unfoldable pub encoding_from_thrift : ThriftEncoding → Encoding
encoding_from_thrift ThriftEncoding.plain = Encoding.plain
encoding_from_thrift ThriftEncoding.plain_dictionary = Encoding.plain_dictionary
encoding_from_thrift ThriftEncoding.rle = Encoding.rle
encoding_from_thrift ThriftEncoding.bit_packed = Encoding.bit_packed
encoding_from_thrift ThriftEncoding.delta_binary_packed = Encoding.delta_binary_packed
encoding_from_thrift ThriftEncoding.delta_length_byte_array = Encoding.delta_length_byte_array
encoding_from_thrift ThriftEncoding.delta_byte_array = Encoding.delta_byte_array
encoding_from_thrift ThriftEncoding.rle_dictionary = Encoding.rle_dictionary

unfoldable pub encoding_to_thrift : Encoding → ThriftEncoding
encoding_to_thrift Encoding.plain = ThriftEncoding.plain
encoding_to_thrift Encoding.plain_dictionary = ThriftEncoding.plain_dictionary
encoding_to_thrift Encoding.rle = ThriftEncoding.rle
encoding_to_thrift Encoding.bit_packed = ThriftEncoding.bit_packed
encoding_to_thrift Encoding.delta_binary_packed = ThriftEncoding.delta_binary_packed
encoding_to_thrift Encoding.delta_length_byte_array = ThriftEncoding.delta_length_byte_array
encoding_to_thrift Encoding.delta_byte_array = ThriftEncoding.delta_byte_array
encoding_to_thrift Encoding.rle_dictionary = ThriftEncoding.rle_dictionary

unfoldable pub compression_from_thrift : CompressionCodec → Compression
compression_from_thrift CompressionCodec.uncompressed = Compression.uncompressed
compression_from_thrift CompressionCodec.snappy = Compression.snappy
compression_from_thrift CompressionCodec.gzip = Compression.gzip
compression_from_thrift CompressionCodec.lzo = Compression.lzo
compression_from_thrift CompressionCodec.brotli = Compression.brotli
compression_from_thrift CompressionCodec.lz4 = Compression.lz4
compression_from_thrift CompressionCodec.zstd = Compression.zstd

unfoldable pub compression_to_thrift : Compression → CompressionCodec
compression_to_thrift Compression.uncompressed = CompressionCodec.uncompressed
compression_to_thrift Compression.snappy = CompressionCodec.snappy
compression_to_thrift Compression.gzip = CompressionCodec.gzip
compression_to_thrift Compression.lzo = CompressionCodec.lzo
compression_to_thrift Compression.brotli = CompressionCodec.brotli
compression_to_thrift Compression.lz4 = CompressionCodec.lz4
compression_to_thrift Compression.zstd = CompressionCodec.zstd

unfoldable pub page_type_from_thrift : ThriftPageType → PageType
page_type_from_thrift ThriftPageType.data_page = PageType.data_page
page_type_from_thrift ThriftPageType.index_page = PageType.index_page
page_type_from_thrift ThriftPageType.dictionary_page = PageType.dictionary_page
page_type_from_thrift ThriftPageType.data_page_v2 = PageType.data_page_v2

unfoldable pub page_type_to_thrift : PageType → ThriftPageType
page_type_to_thrift PageType.data_page = ThriftPageType.data_page
page_type_to_thrift PageType.index_page = ThriftPageType.index_page
page_type_to_thrift PageType.dictionary_page = ThriftPageType.dictionary_page
page_type_to_thrift PageType.data_page_v2 = ThriftPageType.data_page_v2

-- ===== src/Basic/Thrift/Inverse.antt =====
-- src/basic.rs: the conversions to the Thrift enumerations and back undo each other.
use parquet_rs.Prelude.{◌≡◌, refl, Option, none, some}
use parquet_rs.Basic.{PhysicalType, LogicalType, Repetition, Encoding, Compression, PageType}
use parquet_rs.Basic.Thrift.{
  ThriftType, ConvertedType, FieldRepetitionType, ThriftEncoding, CompressionCodec, ThriftPageType,
  type_from_thrift, type_to_thrift, logical_type_from_thrift, logical_type_to_thrift,
  repetition_from_thrift, repetition_to_thrift, encoding_from_thrift, encoding_to_thrift,
  compression_from_thrift, compression_to_thrift, page_type_from_thrift, page_type_to_thrift,
}

pub type_from-type_to : (t : PhysicalType) → type_from_thrift (type_to_thrift t) ≡ t
unfolding type_from_thrift type_to_thrift
type_from-type_to PhysicalType.boolean = refl
type_from-type_to PhysicalType.int32 = refl
type_from-type_to PhysicalType.int64 = refl
type_from-type_to PhysicalType.int96 = refl
type_from-type_to PhysicalType.float = refl
type_from-type_to PhysicalType.double = refl
type_from-type_to PhysicalType.byte_array = refl
type_from-type_to PhysicalType.fixed_len_byte_array = refl

pub logical_type_from-logical_type_to :
    (t : LogicalType) → logical_type_from_thrift (logical_type_to_thrift t) ≡ t
unfolding logical_type_from_thrift logical_type_to_thrift
logical_type_from-logical_type_to LogicalType.none_type = refl
logical_type_from-logical_type_to LogicalType.utf8 = refl
logical_type_from-logical_type_to LogicalType.map = refl
logical_type_from-logical_type_to LogicalType.map_key_value = refl
logical_type_from-logical_type_to LogicalType.list = refl
logical_type_from-logical_type_to LogicalType.enum = refl
logical_type_from-logical_type_to LogicalType.decimal = refl
logical_type_from-logical_type_to LogicalType.date = refl
logical_type_from-logical_type_to LogicalType.time_millis = refl
logical_type_from-logical_type_to LogicalType.time_micros = refl
logical_type_from-logical_type_to LogicalType.timestamp_millis = refl
logical_type_from-logical_type_to LogicalType.timestamp_micros = refl
logical_type_from-logical_type_to LogicalType.uint_8 = refl
logical_type_from-logical_type_to LogicalType.uint_16 = refl
logical_type_from-logical_type_to LogicalType.uint_32 = refl
logical_type_from-logical_type_to LogicalType.uint_64 = refl
logical_type_from-logical_type_to LogicalType.int_8 = refl
logical_type_from-logical_type_to LogicalType.int_16 = refl
logical_type_from-logical_type_to LogicalType.int_32 = refl
logical_type_from-logical_type_to LogicalType.int_64 = refl
logical_type_from-logical_type_to LogicalType.json = refl
logical_type_from-logical_type_to LogicalType.bson = refl
logical_type_from-logical_type_to LogicalType.interval = refl

pub repetition_from-repetition_to :
    (t : Repetition) → repetition_from_thrift (repetition_to_thrift t) ≡ t
unfolding repetition_from_thrift repetition_to_thrift
repetition_from-repetition_to Repetition.required = refl
repetition_from-repetition_to Repetition.optional = refl
repetition_from-repetition_to Repetition.repeated = refl

pub encoding_from-encoding_to : (t : Encoding) → encoding_from_thrift (encoding_to_thrift t) ≡ t
unfolding encoding_from_thrift encoding_to_thrift
encoding_from-encoding_to Encoding.plain = refl
encoding_from-encoding_to Encoding.plain_dictionary = refl
encoding_from-encoding_to Encoding.rle = refl
encoding_from-encoding_to Encoding.bit_packed = refl
encoding_from-encoding_to Encoding.delta_binary_packed = refl
encoding_from-encoding_to Encoding.delta_length_byte_array = refl
encoding_from-encoding_to Encoding.delta_byte_array = refl
encoding_from-encoding_to Encoding.rle_dictionary = refl

pub compression_from-compression_to :
    (t : Compression) → compression_from_thrift (compression_to_thrift t) ≡ t
unfolding compression_from_thrift compression_to_thrift
compression_from-compression_to Compression.uncompressed = refl
compression_from-compression_to Compression.snappy = refl
compression_from-compression_to Compression.gzip = refl
compression_from-compression_to Compression.lzo = refl
compression_from-compression_to Compression.brotli = refl
compression_from-compression_to Compression.lz4 = refl
compression_from-compression_to Compression.zstd = refl

pub page_type_from-page_type_to : (t : PageType) → page_type_from_thrift (page_type_to_thrift t) ≡ t
unfolding page_type_from_thrift page_type_to_thrift
page_type_from-page_type_to PageType.data_page = refl
page_type_from-page_type_to PageType.index_page = refl
page_type_from-page_type_to PageType.dictionary_page = refl
page_type_from-page_type_to PageType.data_page_v2 = refl

pub type_to-type_from : (t : ThriftType) → type_to_thrift (type_from_thrift t) ≡ t
unfolding type_from_thrift type_to_thrift
type_to-type_from ThriftType.boolean = refl
type_to-type_from ThriftType.int32 = refl
type_to-type_from ThriftType.int64 = refl
type_to-type_from ThriftType.int96 = refl
type_to-type_from ThriftType.float = refl
type_to-type_from ThriftType.double = refl
type_to-type_from ThriftType.byte_array = refl
type_to-type_from ThriftType.fixed_len_byte_array = refl

pub repetition_to-repetition_from :
    (t : FieldRepetitionType) → repetition_to_thrift (repetition_from_thrift t) ≡ t
unfolding repetition_from_thrift repetition_to_thrift
repetition_to-repetition_from FieldRepetitionType.required = refl
repetition_to-repetition_from FieldRepetitionType.optional = refl
repetition_to-repetition_from FieldRepetitionType.repeated = refl

pub encoding_to-encoding_from :
    (t : ThriftEncoding) → encoding_to_thrift (encoding_from_thrift t) ≡ t
unfolding encoding_from_thrift encoding_to_thrift
encoding_to-encoding_from ThriftEncoding.plain = refl
encoding_to-encoding_from ThriftEncoding.plain_dictionary = refl
encoding_to-encoding_from ThriftEncoding.rle = refl
encoding_to-encoding_from ThriftEncoding.bit_packed = refl
encoding_to-encoding_from ThriftEncoding.delta_binary_packed = refl
encoding_to-encoding_from ThriftEncoding.delta_length_byte_array = refl
encoding_to-encoding_from ThriftEncoding.delta_byte_array = refl
encoding_to-encoding_from ThriftEncoding.rle_dictionary = refl

pub compression_to-compression_from :
    (t : CompressionCodec) → compression_to_thrift (compression_from_thrift t) ≡ t
unfolding compression_from_thrift compression_to_thrift
compression_to-compression_from CompressionCodec.uncompressed = refl
compression_to-compression_from CompressionCodec.snappy = refl
compression_to-compression_from CompressionCodec.gzip = refl
compression_to-compression_from CompressionCodec.lzo = refl
compression_to-compression_from CompressionCodec.brotli = refl
compression_to-compression_from CompressionCodec.lz4 = refl
compression_to-compression_from CompressionCodec.zstd = refl

pub page_type_to-page_type_from :
    (t : ThriftPageType) → page_type_to_thrift (page_type_from_thrift t) ≡ t
unfolding page_type_from_thrift page_type_to_thrift
page_type_to-page_type_from ThriftPageType.data_page = refl
page_type_to-page_type_from ThriftPageType.index_page = refl
page_type_to-page_type_from ThriftPageType.dictionary_page = refl
page_type_to-page_type_from ThriftPageType.data_page_v2 = refl

pub logical_type_to-logical_type_from :
    (t : Option ConvertedType) → logical_type_to_thrift (logical_type_from_thrift t) ≡ t
unfolding logical_type_from_thrift logical_type_to_thrift
logical_type_to-logical_type_from none = refl
logical_type_to-logical_type_from (some ConvertedType.utf8) = refl
logical_type_to-logical_type_from (some ConvertedType.map) = refl
logical_type_to-logical_type_from (some ConvertedType.map_key_value) = refl
logical_type_to-logical_type_from (some ConvertedType.list) = refl
logical_type_to-logical_type_from (some ConvertedType.enum) = refl
logical_type_to-logical_type_from (some ConvertedType.decimal) = refl
logical_type_to-logical_type_from (some ConvertedType.date) = refl
logical_type_to-logical_type_from (some ConvertedType.time_millis) = refl
logical_type_to-logical_type_from (some ConvertedType.time_micros) = refl
logical_type_to-logical_type_from (some ConvertedType.timestamp_millis) = refl
logical_type_to-logical_type_from (some ConvertedType.timestamp_micros) = refl
logical_type_to-logical_type_from (some ConvertedType.uint_8) = refl
logical_type_to-logical_type_from (some ConvertedType.uint_16) = refl
logical_type_to-logical_type_from (some ConvertedType.uint_32) = refl
logical_type_to-logical_type_from (some ConvertedType.uint_64) = refl
logical_type_to-logical_type_from (some ConvertedType.int_8) = refl
logical_type_to-logical_type_from (some ConvertedType.int_16) = refl
logical_type_to-logical_type_from (some ConvertedType.int_32) = refl
logical_type_to-logical_type_from (some ConvertedType.int_64) = refl
logical_type_to-logical_type_from (some ConvertedType.json) = refl
logical_type_to-logical_type_from (some ConvertedType.bson) = refl
logical_type_to-logical_type_from (some ConvertedType.interval) = refl

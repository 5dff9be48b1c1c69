-- ===== src/Net.antt =====
-- What the program uses of Go's package net and of encoding/binary: addresses as byte lists, and
-- IPv4 blocks.
mod Bytes
mod Blocks
mod Parsing
mod Range
unfoldable pub use Bytes.{Ip, IsBytes, be_from, be_value, to4, ip_equal, put_uint32}
pub use Bytes.{
  be_from_lem, be_value-lt, ip_equal_iff, length-put_uint32, put_uint32-IsBytes,
  be_value-put_uint32, put_uint32-be_value,
}
unfoldable pub use Blocks.{mask_ip4, contains}
pub use Blocks.{IpNet, IsIp4Net, IsIp6Net, to4_six, to4_four, contains_four}
pub use Parsing.{Texts}
pub use Range.{
  put_uint32_four, four_bytes-lt, contains_block, block_exact, block_fits, contains_inside,
  contains_past,
}

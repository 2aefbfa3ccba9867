-- ===== src/Wire.antt =====
-- lib/iocplib/socket_buffer.h: the framed bytes that are sent, and slices of them.
pub mod Laws
mod Tests
use cpp_iocplib.Base.{
  ℕ, ◌+◌, Bool, Option, none, some, List, ◌++◌, take, drop, length, replicate, overwrite, add32,
  encode32, leb, if◌then◌else◌,
}

-- `buffer_`
pub record SocketBuffer : Type 0 where
  pub bytes : List ℕ

abbrev pub header_len : ℕ
header_len = 4

-- The constructor from `data` and `size`: `buffer_` is made as long as the `uint32_t` sum says and
-- filled with zeros, the `size` bytes of `data` are copied behind the header, and `size` is written
-- over the first four bytes.
unfoldable pub allocate : List ℕ → ℕ → SocketBuffer
allocate source size = record {
  bytes =
      overwrite (overwrite (replicate (add32 size header_len) 0) header_len (take size source)) 0
        (encode32 size);
}

unfoldable pub get_buffer_size : SocketBuffer → ℕ
get_buffer_size b = length b.bytes

-- `Slice`, for arguments that are not negative and whose sum is an `int`.
unfoldable pub slice : SocketBuffer → ℕ → ℕ → Option SocketBuffer
slice b start size =
    if leb (length b.bytes) (start + size)
    then none
    else some (record { bytes = take size (drop start b.bytes) })

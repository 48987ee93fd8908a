-- ===== src/Buffer.antt =====
-- memory_storage.hpp, struct memory_buffer: one slot of memory, and the copies of bytes to and
-- from it. A byte is a number; `std::memcpy` out of range is a fault.
pub mod Copy
pub mod Windows
pub mod Clip
use libtorrent_go.Base.{
  ℕ, ◌+◌, min, Bool, false, not, Option, none, some, List, [], ◌∷◌, ◌++◌, ltb, leb, if◌then◌else◌,
  ℤ, pos, negsuc, ◌==ℤ◌, minus_one, to_int32, sub_size, Result, ok, fault, ◌>>=◌, length, take,
  drop, replicate,
}

-- `boost::posix_time::ptime`, in microseconds; `none` is `not_a_date_time`.
abbrev pub Time : Type 0
Time = Option ℕ

-- `a < b` on times; it is false where one side is `not_a_date_time`.
abbrev pub earlier : Time → Time → Bool
earlier none b = false
earlier (some x) none = false
earlier (some x) (some y) = ltb x y

-- `pi` is the index of the piece that is held, -1 if there is none.
pub record Buffer : Type 0 where
  pub index : ℤ
  pub length : ℕ
  pub buffer : List ℕ
  pub pi : ℤ
  pub is_used : Bool
  pub accessed : Time

unfoldable pub new_buffer : ℤ → ℕ → Buffer
new_buffer index length = record {
  index = index;
  length = length;
  buffer = replicate length 0;
  pi = minus_one;
  is_used = false;
  accessed = none;
}

unfoldable pub is_assigned : Buffer → Bool
is_assigned b = not (b.pi ==ℤ minus_one)

-- `now` is what the clock shows; `std::fill` keeps the length of the vector.
unfoldable pub reset_buffer : ℕ → Buffer → Buffer
reset_buffer now b = record b {
  is_used = false;
  pi = minus_one;
  accessed = some now;
  buffer = replicate (length b.buffer) 0;
}

-- The third argument of `memcpy`, an `int` that is converted to `size_t`: a negative one is
-- larger than any memory.
abbrev pub byte_count : ℤ → Result ℕ
byte_count (pos n) = ok n
byte_count (negsuc n) = fault

-- `int const to_copy = std::min(room - file_offset, iov_len)`, all `size_t`.
unfoldable pub to_copy : ℕ → ℕ → ℕ → Result ℕ
to_copy room file_offset iov_len = byte_count (to_int32 (min (sub_size room file_offset) iov_len))

-- `memcpy(dest, &buffer[offset], n)`
unfoldable pub memcpy_from : List ℕ → ℕ → List ℕ → ℕ → Result (List ℕ)
memcpy_from buffer offset dest n =
    if leb (offset + n) (length buffer)
    then (if leb n (length dest) then ok (take n (drop offset buffer) ++ drop n dest) else fault)
    else fault

-- `memcpy(&buffer[offset], src, n)`
unfoldable pub memcpy_to : List ℕ → ℕ → List ℕ → ℕ → Result (List ℕ)
memcpy_to buffer offset src n =
    if leb (offset + n) (length buffer)
    then (if leb n (length src)
        then ok (take offset buffer ++ take n src ++ drop (offset + n) buffer)
        else fault)
    else fault

-- An `iovec_t` by the bytes at `iov_base`; `iov_len` is their number.
abbrev pub Iovec : Type 0
Iovec = List ℕ

-- The copying loop of `readv`: the vectors filled from the buffer, and the bytes copied.
unfoldable pub copy_out : List ℕ → ℕ → List Iovec → Result (List Iovec × ℕ)
copy_out buffer file_offset [] = ok ([], 0)
copy_out buffer file_offset (v ∷ bufs) = do
  n ← to_copy (length buffer) file_offset (length v)
  filled ← memcpy_from buffer file_offset v n
  rest ← copy_out buffer (file_offset + n) bufs
  ok (filled ∷ rest.0, n + rest.1)

-- The copying loop of `writev`, where `room` is the length of the piece: the buffer with the
-- vectors copied to it, and the bytes copied.
unfoldable pub copy_in : ℕ → List ℕ → ℕ → List Iovec → Result (List ℕ × ℕ)
copy_in room buffer file_offset [] = ok (buffer, 0)
copy_in room buffer file_offset (v ∷ bufs) = do
  n ← to_copy room file_offset (length v)
  buffer' ← memcpy_to buffer file_offset v n
  rest ← copy_in room buffer' (file_offset + n) bufs
  ok (rest.0, n + rest.1)

-- The number of bytes that the vectors hold.
unfoldable pub byte_total : List Iovec → ℕ
byte_total [] = 0
byte_total (v ∷ bufs) = length v + byte_total bufs

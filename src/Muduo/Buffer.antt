-- ===== src/Muduo/Buffer.antt =====
-- muduo/server.hpp, class Buffer: a growing array of bytes with a read and a write offset. The offsets
-- are `uint64_t` and wrap at 2 ^ 64; `none` is a failed `assert`.
pub mod Laws
pub mod Queue
pub mod Lines
mod Tests
use linux_os.Base.{
  ℕ, zero, suc, ◌+◌, ◌*◌, List, [], ◌∷◌, ◌++◌, Option, none, some, Bool, ◌&&◌, ltb, leb, ◌==◌,
  if◌then◌else◌, length, take, drop, replicate, slice, add_word, sub_word,
}

abbrev pub default_size : ℕ
default_size = 1024

pub record Buffer : Type 0 where
  pub buffer : List ℕ
  pub write_idx : ℕ
  pub read_idx : ℕ

unfoldable pub new_buffer : Buffer
new_buffer = record { buffer = replicate default_size 0; write_idx = 0; read_idx = 0 }

-- `std::copy` of `src` to index `i`.
abbrev pub copy_to : List ℕ → ℕ → List ℕ → List ℕ
copy_to src i dst = take i dst ++ (src ++ drop (i + length src) dst)

unfoldable pub after_space : Buffer → ℕ
after_space b = sub_word (length b.buffer) b.write_idx

unfoldable pub front_space : Buffer → ℕ
front_space b = b.read_idx

unfoldable pub readable_size : Buffer → ℕ
readable_size b = sub_word b.write_idx b.read_idx

-- `resize` fills up with zero bytes.
unfoldable pub ensure_ample_writeable_space : Buffer → ℕ → Buffer
unfolding after_space front_space readable_size
ensure_ample_writeable_space b size =
    let after = after_space b in
    let front = front_space b in
    let origin_read_size = readable_size b in
    if leb size after
    then b
    else if leb size (add_word front after)
    then (record {
      buffer = copy_to (slice b.read_idx origin_read_size b.buffer) 0 b.buffer;
      write_idx = origin_read_size;
      read_idx = 0;
    })
    else (record b { buffer = b.buffer ++ replicate (length b.buffer + size) 0 })

unfoldable pub move_write_offset : Buffer → ℕ → Option Buffer
move_write_offset b size =
    if leb (add_word b.write_idx size) (length b.buffer)
    then some (record b { write_idx = add_word b.write_idx size })
    else none

unfoldable pub move_read_offset : Buffer → ℕ → Option Buffer
move_read_offset b size =
    if leb (add_word b.read_idx size) b.write_idx && ltb 0 size
    then some (record b { read_idx = add_word b.read_idx size })
    else none

unfoldable pub write : Buffer → List ℕ → Buffer
write b bytes =
    let b' = ensure_ample_writeable_space b (length bytes) in
    record b' { buffer = copy_to bytes b'.write_idx b'.buffer }

unfoldable pub write_and_push : Buffer → List ℕ → Option Buffer
unfolding write move_write_offset
write_and_push b bytes = move_write_offset (write b bytes) (length bytes)

-- `Read`, whose bytes are the result, and `ReadString`.
unfoldable pub read : Buffer → ℕ → Option (List ℕ)
unfolding readable_size
read b size = if leb size (readable_size b) then some (slice b.read_idx size b.buffer) else none

-- `ReadAndPop` and `ReadStringAndPop`.
unfoldable pub read_and_pop : Buffer → ℕ → Option (List ℕ × Buffer)
read_and_pop b size = elim (read b size) [
  | none ↦ none
  | some bytes ↦ elim (move_read_offset b size) [ none ↦ none | some b' ↦ some (bytes, b') ]
]

-- `WriteBuffer` and `WriteBufferAndPush`: the readable bytes of the other buffer.
unfoldable pub write_buffer : Buffer → Buffer → Buffer
unfolding write readable_size
write_buffer b other = write b (slice other.read_idx (readable_size other) other.buffer)

unfoldable pub write_buffer_and_push : Buffer → Buffer → Option Buffer
unfolding write_and_push readable_size
write_buffer_and_push b other =
    write_and_push b (slice other.read_idx (readable_size other) other.buffer)

-- `memchr`: where the byte first stands.
unfoldable pub memchr : ℕ → List ℕ → Option ℕ
memchr c [] = none
memchr c (x ∷ xs) =
    let rest = memchr c xs in
    if x == c then some 0 else elim rest [ none ↦ none | some i ↦ some (i + 1) ]

abbrev pub newline : ℕ
newline = b'\n'

-- The offset of the newline from `ReadIndex()`.
unfoldable pub find_crlf : Buffer → Option ℕ
unfolding memchr readable_size
find_crlf b = memchr newline (slice b.read_idx (readable_size b) b.buffer)

unfoldable pub get_line : Buffer → Option (List ℕ)
unfolding find_crlf read
get_line b = elim (find_crlf b) [ none ↦ some [] | some i ↦ read b (i + 1) ]

unfoldable pub get_line_and_pop : Buffer → Option (List ℕ × Buffer)
unfolding get_line move_read_offset
get_line_and_pop b = elim (get_line b) [
  | none ↦ none
  | some line ↦ elim (move_read_offset b (length line)) [ none ↦ none | some b' ↦ some (line, b') ]
]

unfoldable pub clear : Buffer → Buffer
clear b = record b { write_idx = 0; read_idx = 0 }

-- `Swap`: the two buffers, exchanged.
unfoldable pub swap : Buffer → Buffer → Buffer × Buffer
swap b other = (other, b)

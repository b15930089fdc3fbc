-- ===== src/Muduo/Buffer/Laws.antt =====
-- The buffer as a queue of bytes.
use linux_os.Base.{
  ℕ, ◌+◌, ◌-◌, ◌*◌, ◌<◌, ◌≤◌, ◌≡◌, refl, List, ◌++◌, arith, length, take, drop, slice, word_size,
  sub_word, add_word, le→leb, leb-false, length-slice, length-append, length-take, length-drop,
  length-replicate, slice-append_le, take-append_length, replicate,
}
use native.Mathlib.Decide.{dec_le}
use linux_os.Muduo.Buffer.{Buffer, readable_size, copy_to, ensure_ample_writeable_space}

-- The offsets are in order and the array is small enough that no offset wraps.
pub record IsValid (b : Buffer) : Type 0 where
  pub ordered : b.read_idx ≤ b.write_idx
  pub inside : b.write_idx ≤ length b.buffer
  pub small : length b.buffer < word_size

-- The bytes that were written and not yet read.
abbrev pub contents : Buffer → List ℕ
contents b = slice b.read_idx (b.write_idx - b.read_idx) b.buffer

pub length-contents : (b : Buffer) → IsValid b → length (contents b) ≡ b.write_idx - b.read_idx
length-contents b v = length-slice b.read_idx (b.write_idx - b.read_idx) b.buffer (omega arith)

pub length-copy_to :
    (src dst : List ℕ) (i : ℕ)
    → i + length src ≤ length dst
    → length (copy_to src i dst) ≡ length dst
length-copy_to src dst i h = omega (
  arith,
  length-append (take i dst) (src ++ drop (i + length src) dst),
  length-append src (drop (i + length src) dst),
  length-take i dst,
  length-drop (i + length src) dst,
)

pub readable_size-length : (b : Buffer) → IsValid b → readable_size b ≡ length (contents b)
unfolding readable_size
readable_size-length b v = omega (arith, length-contents b v)

-- What EnsureAmpleWriteableSpace promises: room for `size` bytes, and the same contents.
pub record HasRoom (size : ℕ) (b b' : Buffer) : Type 0 where
  pub valid : IsValid b'
  pub room : b'.write_idx + size ≤ length b'.buffer
  pub same : contents b' ≡ contents b

module _ (b : Buffer) (v : IsValid b) (size : ℕ) where
  compacted : Buffer
  compacted = record {
    buffer = copy_to (contents b) 0 b.buffer;
    write_idx = b.write_idx - b.read_idx;
    read_idx = 0;
  }

  compacted-HasRoom : size ≤ b.read_idx + (length b.buffer - b.write_idx) → HasRoom size b compacted
  unfolding compacted
  compacted-HasRoom h =
      let n = length-contents b v in
      let len = length-copy_to (contents b) b.buffer 0 (omega (arith, n)) in
      record {
        valid = omega (arith, len);
        room = omega (arith, len);
        same = take-append_length (b.write_idx - b.read_idx - 0) (contents b) _ (omega (arith, n));
      }

  grown : Buffer
  grown = record b { buffer = b.buffer ++ replicate (length b.buffer + size) 0 }

  grown-HasRoom : length b.buffer * 2 + size < word_size → HasRoom size b grown
  unfolding grown
  grown-HasRoom h =
      let len = length-append b.buffer (replicate (length b.buffer + size) 0) in
      let more = length-replicate {A = ℕ} (length b.buffer + size) 0 in
      record {
        valid = omega (arith, len, more);
        room = omega (arith, len, more);
        same = slice-append_le b.read_idx (b.write_idx - b.read_idx) b.buffer _ (omega arith);
      }

  -- If the array may grow without overflow, EnsureAmpleWriteableSpace makes room and keeps the
  -- contents, whether it does nothing, moves the bytes to the front or grows the array.
  pub ensure-HasRoom :
      length b.buffer * 2 + size < word_size → HasRoom size b (ensure_ample_writeable_space b size)
  unfolding ensure_ample_writeable_space compacted grown
  ensure-HasRoom h =
      let after : sub_word (length b.buffer) b.write_idx ≡ length b.buffer - b.write_idx =
        omega arith in
      let origin : sub_word b.write_idx b.read_idx ≡ b.write_idx - b.read_idx = omega arith in
      let total : add_word b.read_idx (length b.buffer - b.write_idx)
          ≡ b.read_idx + (length b.buffer - b.write_idx) =
        omega arith in
      rw (after, origin, total)
        (elim (dec_le size (length b.buffer - b.write_idx)) [
          | yes fits ↦ rw (le→leb _ _ fits) (record { valid = v; room = omega arith; same = refl })
          | no tight ↦
              rw (leb-false size (length b.buffer - b.write_idx) (omega arith))
                (elim (dec_le size (b.read_idx + (length b.buffer - b.write_idx))) [
                  | yes fits ↦ rw (le→leb _ _ fits) (compacted-HasRoom fits)
                  | no full ↦
                      rw
                        (leb-false size (b.read_idx + (length b.buffer - b.write_idx))
                          (omega arith))
                        (grown-HasRoom h)
                ])
        ])

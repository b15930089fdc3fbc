-- ===== src/Muduo/Buffer/Queue.antt =====
-- Writing appends to the buffer's contents, and reading takes from their front.
use linux_os.Base.{
  ℕ, ◌+◌, ◌-◌, ◌*◌, ◌<◌, ◌≤◌, ◌≡◌, ◌⊎◌, ◌↔◌, refl, ◌∙◌, ap, List, ◌++◌, none, some, true, arith,
  if◌then◌else◌, length, take, drop, word_size, sub_word, add_word, le→leb, lt→ltb, leb-false,
  length-take, drop-append_le, drop-take, take-append_more, take-append_length, take-take,
  drop-drop, leb, ltb,
}
use native.Mathlib.Decide.{dec_le}
use linux_os.Muduo.Buffer.{
  Buffer, copy_to, ensure_ample_writeable_space, write_and_push, read, read_and_pop,
  move_read_offset, readable_size,
}
use linux_os.Muduo.Buffer.Laws.{IsValid, contents, length-contents, length-copy_to, ensure-HasRoom}

-- The buffer after a copy to the write offset and a move of that offset.
appended : Buffer → List ℕ → Buffer
appended b bytes = record b {
  buffer = copy_to bytes b.write_idx b.buffer;
  write_idx = b.write_idx + length bytes;
}

module _ (b : Buffer) (v : IsValid b) (bytes : List ℕ)
    (room : b.write_idx + length bytes ≤ length b.buffer) where
  appended-IsValid : IsValid (appended b bytes)
  unfolding appended
  appended-IsValid = omega (arith, length-copy_to bytes b.buffer b.write_idx room)

  contents-appended : contents (appended b bytes) ≡ contents b ++ bytes
  unfolding appended
  contents-appended =
      let rest = bytes ++ drop (b.write_idx + length bytes) b.buffer in
      let front = length-take b.write_idx b.buffer in
      let n = length-contents b v in
      rw (
        drop-append_le b.read_idx (take b.write_idx b.buffer) rest (omega arith),
        drop-take b.read_idx b.write_idx b.buffer,
        take-append_more (contents b) rest (b.write_idx + length bytes - b.read_idx) (length bytes)
            (omega (arith, n)),
        take-append_length (length bytes) bytes (drop (b.write_idx + length bytes) b.buffer) refl,
      )

write_and_push-appended :
    (b : Buffer) (bytes : List ℕ)
    → IsValid (ensure_ample_writeable_space b (length bytes))
    → (ensure_ample_writeable_space b (length bytes)).write_idx + length bytes
      ≤ length (ensure_ample_writeable_space b (length bytes)).buffer
    → write_and_push b bytes ≡ some (appended (ensure_ample_writeable_space b (length bytes)) bytes)
unfolding write_and_push appended
write_and_push-appended b bytes v room =
    let e : Buffer = ensure_ample_writeable_space b (length bytes) in
    let sum : add_word e.write_idx (length bytes) ≡ e.write_idx + length bytes = omega arith in
    let len = length-copy_to bytes e.buffer e.write_idx room in rw (sum, len, le→leb _ _ room)

-- If the array may grow without overflow, a write succeeds, and then the bytes stand behind the
-- contents.
pub write_and_push-contents :
    (b : Buffer) (bytes : List ℕ)
    → IsValid b
    → length b.buffer * 2 + length bytes < word_size
    → (b' : Buffer) × (write_and_push b bytes ≡ some b')
      × IsValid b'
      × (contents b' ≡ contents b ++ bytes)
write_and_push-contents b bytes v h =
    let e : Buffer = ensure_ample_writeable_space b (length bytes) in
    let r = ensure-HasRoom b v (length bytes) h in
    (
      appended e bytes,
      write_and_push-appended b bytes r.valid r.room,
      appended-IsValid e r.valid bytes r.room,
      contents-appended e r.valid bytes r.room ∙ ap (λ l. l ++ bytes) r.same,
    )

pub popped :
    (b : Buffer) (n : ℕ)
    → b.read_idx + n ≤ b.write_idx
    → contents (record b { read_idx = b.read_idx + n }) ≡ drop n (contents b)
popped b n h =
    let left : b.write_idx - (b.read_idx + n) ≡ b.write_idx - b.read_idx - n = omega arith in
    rw (
      drop-take n (b.write_idx - b.read_idx) (drop b.read_idx b.buffer),
      drop-drop n b.read_idx b.buffer,
      left,
    )

-- Read gives the first bytes of the contents, and fails if there are fewer.
pub read-take :
    (b : Buffer) (n : ℕ)
    → IsValid b
    → read b n ≡ (if leb n (length (contents b)) then some (take n (contents b)) else none)
unfolding read readable_size
read-take b n v =
    let size = length-contents b v in
    let readable : sub_word b.write_idx b.read_idx ≡ b.write_idx - b.read_idx = omega arith in
    rw (readable, size)
      (elim (dec_le n (b.write_idx - b.read_idx)) [
        | yes h ↦
            rw (le→leb _ _ h, take-take n (b.write_idx - b.read_idx) (drop b.read_idx b.buffer) h)
        | no h ↦ rw (leb-false n (b.write_idx - b.read_idx) (omega arith))
      ])

-- Moving the read offset wants at least one byte, and no more than the contents have.
pub move_read_offset_lem :
    (b : Buffer) (n : ℕ)
    → IsValid b
    → n ≤ length (contents b)
    → move_read_offset b n
      ≡ (if ltb 0 n then some (record b { read_idx = b.read_idx + n }) else none)
unfolding move_read_offset
move_read_offset_lem b n v h =
    let size = length-contents b v in
    let sum : add_word b.read_idx n ≡ b.read_idx + n = omega (arith, size) in
    let inside : leb (b.read_idx + n) b.write_idx ≡ true = le→leb _ _ (omega (arith, size)) in
    rw (sum, inside)

-- Reading takes the first bytes off the contents, if some are asked for and so many are there.
pub read_and_pop-contents :
    (b : Buffer) (n : ℕ)
    → IsValid b
    → 0 < n
    → n ≤ length (contents b)
    → (b' : Buffer) × (read_and_pop b n ≡ some (take n (contents b), b'))
      × IsValid b'
      × (contents b' ≡ drop n (contents b))
unfolding read_and_pop
read_and_pop-contents b n v pos h =
    let size = length-contents b v in
    let moved = move_read_offset_lem b n v h in
    let bytes = read-take b n v in
    (
      record b { read_idx = b.read_idx + n },
      ground (arith, moved, bytes, le→leb n (length (contents b)) h, lt→ltb 0 n pos),
      omega (arith, size),
      popped b n (omega (arith, size)),
    )

-- Reading fails an assertion exactly when nothing is asked for or more than the contents hold.
pub read_and_pop-none_iff :
    (b : Buffer) (n : ℕ)
    → IsValid b
    → (read_and_pop b n ≡ none) ↔ ((n ≡ 0) ⊎ (length (contents b) < n))
unfolding read_and_pop
read_and_pop-none_iff b n v = ground (arith, read-take b n v, move_read_offset_lem b n v)

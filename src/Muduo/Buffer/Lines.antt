-- ===== src/Muduo/Buffer/Lines.antt =====
-- Buffer::GetLineAndPop and what it looks for.
use linux_os.Base.{
  ℕ, zero, suc, ◌<◌, ◌≢◌, ◌⊎◌, inl, inr, Option-cases, ◌+◌, ◌-◌, ◌≤◌, ◌≡◌, refl, sym, ap, ◌∙◌, List,
  [], ◌∷◌, ◌++◌, none, some, arith, length, take, drop, length-append, take-append_length,
  drop-append_length, NotIn, append_assoc, le→leb, sub_word,
}
use linux_os.Muduo.Buffer.{
  Buffer, memchr, newline, find_crlf, get_line, get_line_and_pop, readable_size,
}
use linux_os.Muduo.Buffer.Laws.{IsValid, contents, length-contents}
use linux_os.Muduo.Buffer.Queue.{read-take, move_read_offset_lem, popped}

memchr-append : (c : ℕ) (xs ys : List ℕ) → NotIn c xs → memchr c (xs ++ c ∷ ys) ≡ some (length xs)
unfolding memchr
memchr-append c [] ys h = ground arith
memchr-append c (x ∷ xs) ys h = ground (arith, memchr-append c xs ys h.1)

memchr-none : (c : ℕ) (xs : List ℕ) → NotIn c xs → memchr c xs ≡ none
unfolding memchr
memchr-none c [] h = refl
memchr-none c (x ∷ xs) h = ground (arith, memchr-none c xs h.1)

find_crlf-contents : (b : Buffer) → IsValid b → find_crlf b ≡ memchr newline (contents b)
unfolding find_crlf readable_size
find_crlf-contents b v =
    let readable : sub_word b.write_idx b.read_idx ≡ b.write_idx - b.read_idx = omega arith in
    rw readable

line_length : (line rest : List ℕ) → length (line ++ newline ∷ []) ≡ length line + 1
line_length line rest = omega (arith, length-append line (newline ∷ []))

line_more : (line rest : List ℕ) → length (line ++ newline ∷ rest) ≡ length line + 1 + length rest
line_more line rest = omega (arith, length-append line (newline ∷ rest))

-- If the contents have a newline, the line up to and with the first one is taken off their front.
pub get_line_and_pop-contents :
    (b : Buffer) (line rest : List ℕ)
    → IsValid b
    → contents b ≡ line ++ newline ∷ rest
    → NotIn newline line
    → (b' : Buffer) × (get_line_and_pop b ≡ some (line ++ newline ∷ [], b'))
      × IsValid b'
      × (contents b' ≡ rest)
unfolding get_line_and_pop get_line
get_line_and_pop-contents b line rest v e out =
    let size = length-contents b v in
    let n = line_length line rest in
    let whole : contents b ≡ (line ++ newline ∷ []) ++ rest =
      e ∙ sym (append_assoc line (newline ∷ []) rest) in
    let total = ap length e in
    let found =
      find_crlf-contents b v ∙ ap (memchr newline) e ∙ memchr-append newline line rest out in
    let front : take (length line + 1) (contents b) ≡ line ++ newline ∷ [] =
      rw whole
        (take-append_length (length line + 1) (line ++ newline ∷ []) rest (omega (arith, n))) in
    let back : drop (length line + 1) (contents b) ≡ rest =
      rw whole
        (drop-append_length (length line + 1) (line ++ newline ∷ []) rest (omega (arith, n))) in
    let enough : length line + 1 ≤ length (contents b) =
      omega (arith, total, line_more line rest) in
    let bytes = read-take b (length line + 1) v in
    let moved = move_read_offset_lem b (length (line ++ newline ∷ [])) v (omega (arith, n)) in
    (
      record b { read_idx = b.read_idx + (length line + 1) },
      ground (arith, found, bytes, le→leb _ _ enough, front, moved, n),
      omega (arith, size),
      popped b (length line + 1) (omega (arith, size)) ∙ back,
    )

-- If they have none, the line is empty and the call fails the assertion of MoveReadOffset.
pub get_line_and_pop-none :
    (b : Buffer)
    → IsValid b
    → NotIn newline (contents b)
    → (get_line b ≡ some []) × (get_line_and_pop b ≡ none)
unfolding get_line_and_pop get_line
get_line_and_pop-none b v out =
    let nothing = find_crlf-contents b v ∙ memchr-none newline (contents b) out in
    ground (arith, nothing, move_read_offset_lem b 0 v)

-- What `memchr` finds is the first one.
memchr-some :
    (c : ℕ) (xs : List ℕ) (i : ℕ)
    → memchr c xs ≡ some i
    → (xs ≡ take i xs ++ c ∷ drop (i + 1) xs) × NotIn c (take i xs)
unfolding memchr
memchr-some c [] i h = absurd (cc h)
memchr-some c (x ∷ xs) zero h = (ground (arith, h), tt)
memchr-some c (x ∷ xs) (suc i) h =
    let ne : x ≢ c = ground (arith, h) in
    let rest = memchr-some c xs i (ground (arith, h)) in
    (ground (arith, rest.0), (ground (arith, ne), rest.1))

memchr-absent : (c : ℕ) (xs : List ℕ) → memchr c xs ≡ none → NotIn c xs
unfolding memchr
memchr-absent c [] h = tt
memchr-absent c (x ∷ xs) h = ground (arith, memchr-absent c xs)

-- Either the contents have no newline, or a line can be taken off them.
pub line_cases :
    (b : Buffer)
    → IsValid b
    → ((find_crlf b ≡ none) × NotIn newline (contents b))
      ⊎ ((i : ℕ) × (line : List ℕ) × (b' : Buffer) × (find_crlf b ≡ some i)
          × (get_line_and_pop b ≡ some (line, b'))
          × IsValid b'
          × (length (contents b') < length (contents b)))
line_cases b v = elim (Option-cases (memchr newline (contents b))) [
  | inl e ↦ inl (find_crlf-contents b v ∙ e, memchr-absent newline (contents b) e)
  | inr (i, e) ↦
      let (split_at, before) = memchr-some newline (contents b) i e in
      let (b', taken, valid, rest) =
        get_line_and_pop-contents b (take i (contents b)) (drop (i + 1) (contents b)) v split_at
          before in
      let total = ap length split_at in
      let parts = line_more (take i (contents b)) (drop (i + 1) (contents b)) in
      let left = ap length rest in
      let found = find_crlf-contents b v ∙ e in
      inr (
        i,
        take i (contents b) ++ newline ∷ [],
        b',
        found,
        taken,
        valid,
        omega (arith, total, parts, left),
      )
]

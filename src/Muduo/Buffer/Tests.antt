-- ===== src/Muduo/Buffer/Tests.antt =====
-- Runs of the buffer, and the theorems on a concrete one.
use linux_os.Base.{◌≡◌, refl, [], ◌∷◌, none, some, arith}
use linux_os.Muduo.Buffer.{
  Buffer, write_and_push, read_and_pop, get_line, get_line_and_pop, newline,
}
use linux_os.Muduo.Buffer.Laws.{IsValid, contents}
use linux_os.Muduo.Buffer.Queue.{write_and_push-contents, read_and_pop-contents}
use linux_os.Muduo.Buffer.Lines.{get_line_and_pop-contents, get_line_and_pop-none}

-- Four bytes, of which the second and third are unread: "G" and a newline.
abbrev small : Buffer
small = record { buffer = 1 ∷ b'G' ∷ newline ∷ 0 ∷ []; write_idx = 3; read_idx = 1 }

small-IsValid : IsValid small
small-IsValid = omega arith

abbrev unread : Buffer
unread = record { buffer = 1 ∷ b'G' ∷ 0 ∷ 0 ∷ []; write_idx = 2; read_idx = 1 }

unread-IsValid : IsValid unread
unread-IsValid = omega arith

write_and_push-contents_example :
    (b' : Buffer) × (write_and_push small (7 ∷ 8 ∷ []) ≡ some b')
    × IsValid b'
    × (contents b' ≡ b'G' ∷ newline ∷ 7 ∷ 8 ∷ [])
write_and_push-contents_example =
    write_and_push-contents small (7 ∷ 8 ∷ []) small-IsValid (omega arith)

read_and_pop-contents_example :
    (b' : Buffer) × (read_and_pop small 1 ≡ some (b'G' ∷ [], b'))
    × IsValid b'
    × (contents b' ≡ newline ∷ [])
read_and_pop-contents_example =
    read_and_pop-contents small 1 small-IsValid (omega arith) (omega arith)

get_line_and_pop-contents_example :
    (b' : Buffer) × (get_line_and_pop small ≡ some (b'G' ∷ newline ∷ [], b'))
    × IsValid b'
    × (contents b' ≡ [])
get_line_and_pop-contents_example =
    get_line_and_pop-contents small (b'G' ∷ []) [] small-IsValid refl (omega arith)

get_line_and_pop-none_example : (get_line unread ≡ some []) × (get_line_and_pop unread ≡ none)
get_line_and_pop-none_example = get_line_and_pop-none unread unread-IsValid (omega arith)

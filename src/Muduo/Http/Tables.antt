-- ===== src/Muduo/Http/Tables.antt =====
-- muduo/http/httpserver.hpp, the tables kHttpStatusText and kMimeTypes, and Util::GetStatusDesc and
-- Util::GetMime.
use linux_os.Base.{ℕ, ◌+◌, List, [], ◌∷◌, Option, none, some, ◌==◌, if◌then◌else◌, drop}
use linux_os.Muduo.Http.Paths.{Text}
use linux_os.Muduo.Http.Message.{TextMap, lookup}

unfoldable pub status_text : List (ℕ × Text)
status_text =
    (100, b'C' ∷ b'o' ∷ b'n' ∷ b't' ∷ b'i' ∷ b'n' ∷ b'u' ∷ b'e' ∷ [])
    ∷ (
      101,
      b'S' ∷ b'w' ∷ b'i' ∷ b't' ∷ b'c' ∷ b'h' ∷ b'i' ∷ b'n' ∷ b'g' ∷ b' ' ∷ b'P' ∷ b'r' ∷ b'o'
          ∷ b't' ∷ b'o' ∷ b'c' ∷ b'o' ∷ b'l' ∷ b's' ∷ [],
    )
    ∷ (102, b'P' ∷ b'r' ∷ b'o' ∷ b'c' ∷ b'e' ∷ b's' ∷ b's' ∷ b'i' ∷ b'n' ∷ b'g' ∷ [])
    ∷ (103, b'E' ∷ b'a' ∷ b'r' ∷ b'l' ∷ b'y' ∷ b' ' ∷ b'H' ∷ b'i' ∷ b'n' ∷ b't' ∷ b's' ∷ [])
    ∷ (200, b'O' ∷ b'K' ∷ [])
    ∷ (201, b'C' ∷ b'r' ∷ b'e' ∷ b'a' ∷ b't' ∷ b'e' ∷ b'd' ∷ [])
    ∷ (202, b'A' ∷ b'c' ∷ b'c' ∷ b'e' ∷ b'p' ∷ b't' ∷ b'e' ∷ b'd' ∷ [])
    ∷ (
      203,
      b'N' ∷ b'o' ∷ b'n' ∷ b'-' ∷ b'A' ∷ b'u' ∷ b't' ∷ b'h' ∷ b'o' ∷ b'r' ∷ b'i' ∷ b't' ∷ b'a'
          ∷ b't' ∷ b'i' ∷ b'v' ∷ b'e' ∷ b' ' ∷ b'I' ∷ b'n' ∷ b'f' ∷ b'o' ∷ b'r' ∷ b'm' ∷ b'a' ∷ b't'
          ∷ b'i' ∷ b'o' ∷ b'n' ∷ [],
    )
    ∷ (204, b'N' ∷ b'o' ∷ b' ' ∷ b'C' ∷ b'o' ∷ b'n' ∷ b't' ∷ b'e' ∷ b'n' ∷ b't' ∷ [])
    ∷ (
      205,
      b'R' ∷ b'e' ∷ b's' ∷ b'e' ∷ b't' ∷ b' ' ∷ b'C' ∷ b'o' ∷ b'n' ∷ b't' ∷ b'e' ∷ b'n' ∷ b't' ∷ [],
    )
    ∷ (
      206,
      b'P' ∷ b'a' ∷ b'r' ∷ b't' ∷ b'i' ∷ b'a' ∷ b'l' ∷ b' ' ∷ b'C' ∷ b'o' ∷ b'n' ∷ b't' ∷ b'e'
          ∷ b'n' ∷ b't' ∷ [],
    )
    ∷ (207, b'M' ∷ b'u' ∷ b'l' ∷ b't' ∷ b'i' ∷ b'-' ∷ b'S' ∷ b't' ∷ b'a' ∷ b't' ∷ b'u' ∷ b's' ∷ [])
    ∷ (
      208,
      b'A' ∷ b'l' ∷ b'r' ∷ b'e' ∷ b'a' ∷ b'd' ∷ b'y' ∷ b' ' ∷ b'R' ∷ b'e' ∷ b'p' ∷ b'o' ∷ b'r'
          ∷ b't' ∷ b'e' ∷ b'd' ∷ [],
    )
    ∷ (226, b'I' ∷ b'M' ∷ b' ' ∷ b'U' ∷ b's' ∷ b'e' ∷ b'd' ∷ [])
    ∷ (
      300,
      b'M' ∷ b'u' ∷ b'l' ∷ b't' ∷ b'i' ∷ b'p' ∷ b'l' ∷ b'e' ∷ b' ' ∷ b'C' ∷ b'h' ∷ b'o' ∷ b'i'
          ∷ b'c' ∷ b'e' ∷ b's' ∷ [],
    )
    ∷ (
      301,
      b'M' ∷ b'o' ∷ b'v' ∷ b'e' ∷ b'd' ∷ b' ' ∷ b'P' ∷ b'e' ∷ b'r' ∷ b'm' ∷ b'a' ∷ b'n' ∷ b'e'
          ∷ b'n' ∷ b't' ∷ b'l' ∷ b'y' ∷ [],
    )
    ∷ (302, b'F' ∷ b'o' ∷ b'u' ∷ b'n' ∷ b'd' ∷ [])
    ∷ (303, b'S' ∷ b'e' ∷ b'e' ∷ b' ' ∷ b'O' ∷ b't' ∷ b'h' ∷ b'e' ∷ b'r' ∷ [])
    ∷ (304, b'N' ∷ b'o' ∷ b't' ∷ b' ' ∷ b'M' ∷ b'o' ∷ b'd' ∷ b'i' ∷ b'f' ∷ b'i' ∷ b'e' ∷ b'd' ∷ [])
    ∷ (305, b'U' ∷ b's' ∷ b'e' ∷ b' ' ∷ b'P' ∷ b'r' ∷ b'o' ∷ b'x' ∷ b'y' ∷ [])
    ∷ (
      307,
      b'T' ∷ b'e' ∷ b'm' ∷ b'p' ∷ b'o' ∷ b'r' ∷ b'a' ∷ b'r' ∷ b'y' ∷ b' ' ∷ b'R' ∷ b'e' ∷ b'd'
          ∷ b'i' ∷ b'r' ∷ b'e' ∷ b'c' ∷ b't' ∷ [],
    )
    ∷ (
      308,
      b'P' ∷ b'e' ∷ b'r' ∷ b'm' ∷ b'a' ∷ b'n' ∷ b'e' ∷ b'n' ∷ b't' ∷ b' ' ∷ b'R' ∷ b'e' ∷ b'd'
          ∷ b'i' ∷ b'r' ∷ b'e' ∷ b'c' ∷ b't' ∷ [],
    )
    ∷ (400, b'B' ∷ b'a' ∷ b'd' ∷ b' ' ∷ b'R' ∷ b'e' ∷ b'q' ∷ b'u' ∷ b'e' ∷ b's' ∷ b't' ∷ [])
    ∷ (401, b'U' ∷ b'n' ∷ b'a' ∷ b'u' ∷ b't' ∷ b'h' ∷ b'o' ∷ b'r' ∷ b'i' ∷ b'z' ∷ b'e' ∷ b'd' ∷ [])
    ∷ (
      402,
      b'P' ∷ b'a' ∷ b'y' ∷ b'm' ∷ b'e' ∷ b'n' ∷ b't' ∷ b' ' ∷ b'R' ∷ b'e' ∷ b'q' ∷ b'u' ∷ b'i'
          ∷ b'r' ∷ b'e' ∷ b'd' ∷ [],
    )
    ∷ (403, b'F' ∷ b'o' ∷ b'r' ∷ b'b' ∷ b'i' ∷ b'd' ∷ b'd' ∷ b'e' ∷ b'n' ∷ [])
    ∷ (404, b'N' ∷ b'o' ∷ b't' ∷ b' ' ∷ b'F' ∷ b'o' ∷ b'u' ∷ b'n' ∷ b'd' ∷ [])
    ∷ (
      405,
      b'M' ∷ b'e' ∷ b't' ∷ b'h' ∷ b'o' ∷ b'd' ∷ b' ' ∷ b'N' ∷ b'o' ∷ b't' ∷ b' ' ∷ b'A' ∷ b'l'
          ∷ b'l' ∷ b'o' ∷ b'w' ∷ b'e' ∷ b'd' ∷ [],
    )
    ∷ (
      406,
      b'N' ∷ b'o' ∷ b't' ∷ b' ' ∷ b'A' ∷ b'c' ∷ b'c' ∷ b'e' ∷ b'p' ∷ b't' ∷ b'a' ∷ b'b' ∷ b'l'
          ∷ b'e' ∷ [],
    )
    ∷ (
      407,
      b'P' ∷ b'r' ∷ b'o' ∷ b'x' ∷ b'y' ∷ b' ' ∷ b'A' ∷ b'u' ∷ b't' ∷ b'h' ∷ b'e' ∷ b'n' ∷ b't'
          ∷ b'i' ∷ b'c' ∷ b'a' ∷ b't' ∷ b'i' ∷ b'o' ∷ b'n' ∷ b' ' ∷ b'R' ∷ b'e' ∷ b'q' ∷ b'u' ∷ b'i'
          ∷ b'r' ∷ b'e' ∷ b'd' ∷ [],
    )
    ∷ (
      408,
      b'R' ∷ b'e' ∷ b'q' ∷ b'u' ∷ b'e' ∷ b's' ∷ b't' ∷ b' ' ∷ b'T' ∷ b'i' ∷ b'm' ∷ b'e' ∷ b'o'
          ∷ b'u' ∷ b't' ∷ [],
    )
    ∷ (409, b'C' ∷ b'o' ∷ b'n' ∷ b'f' ∷ b'l' ∷ b'i' ∷ b'c' ∷ b't' ∷ [])
    ∷ (410, b'G' ∷ b'o' ∷ b'n' ∷ b'e' ∷ [])
    ∷ (
      411,
      b'L' ∷ b'e' ∷ b'n' ∷ b'g' ∷ b't' ∷ b'h' ∷ b' ' ∷ b'R' ∷ b'e' ∷ b'q' ∷ b'u' ∷ b'i' ∷ b'r'
          ∷ b'e' ∷ b'd' ∷ [],
    )
    ∷ (
      412,
      b'P' ∷ b'r' ∷ b'e' ∷ b'c' ∷ b'o' ∷ b'n' ∷ b'd' ∷ b'i' ∷ b't' ∷ b'i' ∷ b'o' ∷ b'n' ∷ b' '
          ∷ b'F' ∷ b'a' ∷ b'i' ∷ b'l' ∷ b'e' ∷ b'd' ∷ [],
    )
    ∷ (
      413,
      b'P' ∷ b'a' ∷ b'y' ∷ b'l' ∷ b'o' ∷ b'a' ∷ b'd' ∷ b' ' ∷ b'T' ∷ b'o' ∷ b'o' ∷ b' ' ∷ b'L'
          ∷ b'a' ∷ b'r' ∷ b'g' ∷ b'e' ∷ [],
    )
    ∷ (414, b'U' ∷ b'R' ∷ b'I' ∷ b' ' ∷ b'T' ∷ b'o' ∷ b'o' ∷ b' ' ∷ b'L' ∷ b'o' ∷ b'n' ∷ b'g' ∷ [])
    ∷ (
      415,
      b'U' ∷ b'n' ∷ b's' ∷ b'u' ∷ b'p' ∷ b'p' ∷ b'o' ∷ b'r' ∷ b't' ∷ b'e' ∷ b'd' ∷ b' ' ∷ b'M'
          ∷ b'e' ∷ b'd' ∷ b'i' ∷ b'a' ∷ b' ' ∷ b'T' ∷ b'y' ∷ b'p' ∷ b'e' ∷ [],
    )
    ∷ (
      416,
      b'R' ∷ b'a' ∷ b'n' ∷ b'g' ∷ b'e' ∷ b' ' ∷ b'N' ∷ b'o' ∷ b't' ∷ b' ' ∷ b'S' ∷ b'a' ∷ b't'
          ∷ b'i' ∷ b's' ∷ b'f' ∷ b'i' ∷ b'a' ∷ b'b' ∷ b'l' ∷ b'e' ∷ [],
    )
    ∷ (
      417,
      b'E' ∷ b'x' ∷ b'p' ∷ b'e' ∷ b'c' ∷ b't' ∷ b'a' ∷ b't' ∷ b'i' ∷ b'o' ∷ b'n' ∷ b' ' ∷ b'F'
          ∷ b'a' ∷ b'i' ∷ b'l' ∷ b'e' ∷ b'd' ∷ [],
    )
    ∷ (418, b'I' ∷ b'\'' ∷ b'm' ∷ b' ' ∷ b'a' ∷ b' ' ∷ b'T' ∷ b'e' ∷ b'a' ∷ b'p' ∷ b'o' ∷ b't' ∷ [])
    ∷ (
      421,
      b'M' ∷ b'i' ∷ b's' ∷ b'd' ∷ b'i' ∷ b'r' ∷ b'e' ∷ b'c' ∷ b't' ∷ b'e' ∷ b'd' ∷ b' ' ∷ b'R'
          ∷ b'e' ∷ b'q' ∷ b'u' ∷ b'e' ∷ b's' ∷ b't' ∷ [],
    )
    ∷ (
      422,
      b'U' ∷ b'n' ∷ b'p' ∷ b'r' ∷ b'o' ∷ b'c' ∷ b'e' ∷ b's' ∷ b's' ∷ b'a' ∷ b'b' ∷ b'l' ∷ b'e'
          ∷ b' ' ∷ b'E' ∷ b'n' ∷ b't' ∷ b'i' ∷ b't' ∷ b'y' ∷ [],
    )
    ∷ (423, b'L' ∷ b'o' ∷ b'c' ∷ b'k' ∷ b'e' ∷ b'd' ∷ [])
    ∷ (
      424,
      b'F' ∷ b'a' ∷ b'i' ∷ b'l' ∷ b'e' ∷ b'd' ∷ b' ' ∷ b'D' ∷ b'e' ∷ b'p' ∷ b'e' ∷ b'n' ∷ b'd'
          ∷ b'e' ∷ b'n' ∷ b'c' ∷ b'y' ∷ [],
    )
    ∷ (425, b'T' ∷ b'o' ∷ b'o' ∷ b' ' ∷ b'E' ∷ b'a' ∷ b'r' ∷ b'l' ∷ b'y' ∷ [])
    ∷ (
      426,
      b'U' ∷ b'p' ∷ b'g' ∷ b'r' ∷ b'a' ∷ b'd' ∷ b'e' ∷ b' ' ∷ b'R' ∷ b'e' ∷ b'q' ∷ b'u' ∷ b'i'
          ∷ b'r' ∷ b'e' ∷ b'd' ∷ [],
    )
    ∷ (
      428,
      b'P' ∷ b'r' ∷ b'e' ∷ b'c' ∷ b'o' ∷ b'n' ∷ b'd' ∷ b'i' ∷ b't' ∷ b'i' ∷ b'o' ∷ b'n' ∷ b' '
          ∷ b'R' ∷ b'e' ∷ b'q' ∷ b'u' ∷ b'i' ∷ b'r' ∷ b'e' ∷ b'd' ∷ [],
    )
    ∷ (
      429,
      b'T' ∷ b'o' ∷ b'o' ∷ b' ' ∷ b'M' ∷ b'a' ∷ b'n' ∷ b'y' ∷ b' ' ∷ b'R' ∷ b'e' ∷ b'q' ∷ b'u'
          ∷ b'e' ∷ b's' ∷ b't' ∷ b's' ∷ [],
    )
    ∷ (
      431,
      b'R' ∷ b'e' ∷ b'q' ∷ b'u' ∷ b'e' ∷ b's' ∷ b't' ∷ b' ' ∷ b'H' ∷ b'e' ∷ b'a' ∷ b'd' ∷ b'e'
          ∷ b'r' ∷ b' ' ∷ b'F' ∷ b'i' ∷ b'e' ∷ b'l' ∷ b'd' ∷ b's' ∷ b' ' ∷ b'T' ∷ b'o' ∷ b'o' ∷ b' '
          ∷ b'L' ∷ b'a' ∷ b'r' ∷ b'g' ∷ b'e' ∷ [],
    )
    ∷ (
      451,
      b'U' ∷ b'n' ∷ b'a' ∷ b'v' ∷ b'a' ∷ b'i' ∷ b'l' ∷ b'a' ∷ b'b' ∷ b'l' ∷ b'e' ∷ b' ' ∷ b'F'
          ∷ b'o' ∷ b'r' ∷ b' ' ∷ b'L' ∷ b'e' ∷ b'g' ∷ b'a' ∷ b'l' ∷ b' ' ∷ b'R' ∷ b'e' ∷ b'a' ∷ b's'
          ∷ b'o' ∷ b'n' ∷ b's' ∷ [],
    )
    ∷ (
      500,
      b'I' ∷ b'n' ∷ b't' ∷ b'e' ∷ b'r' ∷ b'n' ∷ b'a' ∷ b'l' ∷ b' ' ∷ b'S' ∷ b'e' ∷ b'r' ∷ b'v'
          ∷ b'e' ∷ b'r' ∷ b' ' ∷ b'E' ∷ b'r' ∷ b'r' ∷ b'o' ∷ b'r' ∷ [],
    )
    ∷ (
      501,
      b'N' ∷ b'o' ∷ b't' ∷ b' ' ∷ b'I' ∷ b'm' ∷ b'p' ∷ b'l' ∷ b'e' ∷ b'm' ∷ b'e' ∷ b'n' ∷ b't'
          ∷ b'e' ∷ b'd' ∷ [],
    )
    ∷ (502, b'B' ∷ b'a' ∷ b'd' ∷ b' ' ∷ b'G' ∷ b'a' ∷ b't' ∷ b'e' ∷ b'w' ∷ b'a' ∷ b'y' ∷ [])
    ∷ (
      503,
      b'S' ∷ b'e' ∷ b'r' ∷ b'v' ∷ b'i' ∷ b'c' ∷ b'e' ∷ b' ' ∷ b'U' ∷ b'n' ∷ b'a' ∷ b'v' ∷ b'a'
          ∷ b'i' ∷ b'l' ∷ b'a' ∷ b'b' ∷ b'l' ∷ b'e' ∷ [],
    )
    ∷ (
      504,
      b'G' ∷ b'a' ∷ b't' ∷ b'e' ∷ b'w' ∷ b'a' ∷ b'y' ∷ b' ' ∷ b'T' ∷ b'i' ∷ b'm' ∷ b'e' ∷ b'o'
          ∷ b'u' ∷ b't' ∷ [],
    )
    ∷ (
      505,
      b'H' ∷ b'T' ∷ b'T' ∷ b'P' ∷ b' ' ∷ b'V' ∷ b'e' ∷ b'r' ∷ b's' ∷ b'i' ∷ b'o' ∷ b'n' ∷ b' '
          ∷ b'N' ∷ b'o' ∷ b't' ∷ b' ' ∷ b'S' ∷ b'u' ∷ b'p' ∷ b'p' ∷ b'o' ∷ b'r' ∷ b't' ∷ b'e' ∷ b'd'
          ∷ [],
    )
    ∷ (
      506,
      b'V' ∷ b'a' ∷ b'r' ∷ b'i' ∷ b'a' ∷ b'n' ∷ b't' ∷ b' ' ∷ b'A' ∷ b'l' ∷ b's' ∷ b'o' ∷ b' '
          ∷ b'N' ∷ b'e' ∷ b'g' ∷ b'o' ∷ b't' ∷ b'i' ∷ b'a' ∷ b't' ∷ b'e' ∷ b's' ∷ [],
    )
    ∷ (
      507,
      b'I' ∷ b'n' ∷ b's' ∷ b'u' ∷ b'f' ∷ b'f' ∷ b'i' ∷ b'c' ∷ b'i' ∷ b'e' ∷ b'n' ∷ b't' ∷ b' '
          ∷ b'S' ∷ b't' ∷ b'o' ∷ b'r' ∷ b'a' ∷ b'g' ∷ b'e' ∷ [],
    )
    ∷ (
      508,
      b'L' ∷ b'o' ∷ b'o' ∷ b'p' ∷ b' ' ∷ b'D' ∷ b'e' ∷ b't' ∷ b'e' ∷ b'c' ∷ b't' ∷ b'e' ∷ b'd' ∷ [],
    )
    ∷ (510, b'N' ∷ b'o' ∷ b't' ∷ b' ' ∷ b'E' ∷ b'x' ∷ b't' ∷ b'e' ∷ b'n' ∷ b'd' ∷ b'e' ∷ b'd' ∷ [])
    ∷ (
      511,
      b'N' ∷ b'e' ∷ b't' ∷ b'w' ∷ b'o' ∷ b'r' ∷ b'k' ∷ b' ' ∷ b'A' ∷ b'u' ∷ b't' ∷ b'h' ∷ b'e'
          ∷ b'n' ∷ b't' ∷ b'i' ∷ b'c' ∷ b'a' ∷ b't' ∷ b'i' ∷ b'o' ∷ b'n' ∷ b' ' ∷ b'R' ∷ b'e' ∷ b'q'
          ∷ b'u' ∷ b'i' ∷ b'r' ∷ b'e' ∷ b'd' ∷ [],
    )
    ∷ []

unfoldable pub mime_types : TextMap
mime_types =
    (
      b'.' ∷ b'h' ∷ b't' ∷ b'm' ∷ b'l' ∷ [],
      b't' ∷ b'e' ∷ b'x' ∷ b't' ∷ b'/' ∷ b'h' ∷ b't' ∷ b'm' ∷ b'l' ∷ b';' ∷ b' ' ∷ b'c' ∷ b'h'
          ∷ b'a' ∷ b'r' ∷ b's' ∷ b'e' ∷ b't' ∷ b'=' ∷ b'u' ∷ b't' ∷ b'f' ∷ b'-' ∷ b'8' ∷ [],
    )
    ∷ (
      b'.' ∷ b'h' ∷ b't' ∷ b'm' ∷ [],
      b't' ∷ b'e' ∷ b'x' ∷ b't' ∷ b'/' ∷ b'h' ∷ b't' ∷ b'm' ∷ b'l' ∷ b';' ∷ b' ' ∷ b'c' ∷ b'h'
          ∷ b'a' ∷ b'r' ∷ b's' ∷ b'e' ∷ b't' ∷ b'=' ∷ b'u' ∷ b't' ∷ b'f' ∷ b'-' ∷ b'8' ∷ [],
    )
    ∷ (
      b'.' ∷ b'c' ∷ b's' ∷ b's' ∷ [],
      b't' ∷ b'e' ∷ b'x' ∷ b't' ∷ b'/' ∷ b'c' ∷ b's' ∷ b's' ∷ b';' ∷ b' ' ∷ b'c' ∷ b'h' ∷ b'a'
          ∷ b'r' ∷ b's' ∷ b'e' ∷ b't' ∷ b'=' ∷ b'u' ∷ b't' ∷ b'f' ∷ b'-' ∷ b'8' ∷ [],
    )
    ∷ (
      b'.' ∷ b'j' ∷ b's' ∷ [],
      b'a' ∷ b'p' ∷ b'p' ∷ b'l' ∷ b'i' ∷ b'c' ∷ b'a' ∷ b't' ∷ b'i' ∷ b'o' ∷ b'n' ∷ b'/' ∷ b'j'
          ∷ b'a' ∷ b'v' ∷ b'a' ∷ b's' ∷ b'c' ∷ b'r' ∷ b'i' ∷ b'p' ∷ b't' ∷ b';' ∷ b' ' ∷ b'c' ∷ b'h'
          ∷ b'a' ∷ b'r' ∷ b's' ∷ b'e' ∷ b't' ∷ b'=' ∷ b'u' ∷ b't' ∷ b'f' ∷ b'-' ∷ b'8' ∷ [],
    )
    ∷ (
      b'.' ∷ b'm' ∷ b'j' ∷ b's' ∷ [],
      b'a' ∷ b'p' ∷ b'p' ∷ b'l' ∷ b'i' ∷ b'c' ∷ b'a' ∷ b't' ∷ b'i' ∷ b'o' ∷ b'n' ∷ b'/' ∷ b'j'
          ∷ b'a' ∷ b'v' ∷ b'a' ∷ b's' ∷ b'c' ∷ b'r' ∷ b'i' ∷ b'p' ∷ b't' ∷ b';' ∷ b' ' ∷ b'c' ∷ b'h'
          ∷ b'a' ∷ b'r' ∷ b's' ∷ b'e' ∷ b't' ∷ b'=' ∷ b'u' ∷ b't' ∷ b'f' ∷ b'-' ∷ b'8' ∷ [],
    )
    ∷ (
      b'.' ∷ b't' ∷ b'x' ∷ b't' ∷ [],
      b't' ∷ b'e' ∷ b'x' ∷ b't' ∷ b'/' ∷ b'p' ∷ b'l' ∷ b'a' ∷ b'i' ∷ b'n' ∷ b';' ∷ b' ' ∷ b'c'
          ∷ b'h' ∷ b'a' ∷ b'r' ∷ b's' ∷ b'e' ∷ b't' ∷ b'=' ∷ b'u' ∷ b't' ∷ b'f' ∷ b'-' ∷ b'8' ∷ [],
    )
    ∷ (
      b'.' ∷ b'c' ∷ b's' ∷ b'v' ∷ [],
      b't' ∷ b'e' ∷ b'x' ∷ b't' ∷ b'/' ∷ b'c' ∷ b's' ∷ b'v' ∷ b';' ∷ b' ' ∷ b'c' ∷ b'h' ∷ b'a'
          ∷ b'r' ∷ b's' ∷ b'e' ∷ b't' ∷ b'=' ∷ b'u' ∷ b't' ∷ b'f' ∷ b'-' ∷ b'8' ∷ [],
    )
    ∷ (
      b'.' ∷ b'x' ∷ b'm' ∷ b'l' ∷ [],
      b'a' ∷ b'p' ∷ b'p' ∷ b'l' ∷ b'i' ∷ b'c' ∷ b'a' ∷ b't' ∷ b'i' ∷ b'o' ∷ b'n' ∷ b'/' ∷ b'x'
          ∷ b'm' ∷ b'l' ∷ b';' ∷ b' ' ∷ b'c' ∷ b'h' ∷ b'a' ∷ b'r' ∷ b's' ∷ b'e' ∷ b't' ∷ b'=' ∷ b'u'
          ∷ b't' ∷ b'f' ∷ b'-' ∷ b'8' ∷ [],
    )
    ∷ (
      b'.' ∷ b'j' ∷ b's' ∷ b'o' ∷ b'n' ∷ [],
      b'a' ∷ b'p' ∷ b'p' ∷ b'l' ∷ b'i' ∷ b'c' ∷ b'a' ∷ b't' ∷ b'i' ∷ b'o' ∷ b'n' ∷ b'/' ∷ b'j'
          ∷ b's' ∷ b'o' ∷ b'n' ∷ b';' ∷ b' ' ∷ b'c' ∷ b'h' ∷ b'a' ∷ b'r' ∷ b's' ∷ b'e' ∷ b't' ∷ b'='
          ∷ b'u' ∷ b't' ∷ b'f' ∷ b'-' ∷ b'8' ∷ [],
    )
    ∷ (
      b'.' ∷ b'm' ∷ b'd' ∷ [],
      b't' ∷ b'e' ∷ b'x' ∷ b't' ∷ b'/' ∷ b'm' ∷ b'a' ∷ b'r' ∷ b'k' ∷ b'd' ∷ b'o' ∷ b'w' ∷ b'n'
          ∷ b';' ∷ b' ' ∷ b'c' ∷ b'h' ∷ b'a' ∷ b'r' ∷ b's' ∷ b'e' ∷ b't' ∷ b'=' ∷ b'u' ∷ b't' ∷ b'f'
          ∷ b'-' ∷ b'8' ∷ [],
    )
    ∷ (
      b'.' ∷ b'p' ∷ b'n' ∷ b'g' ∷ [],
      b'i' ∷ b'm' ∷ b'a' ∷ b'g' ∷ b'e' ∷ b'/' ∷ b'p' ∷ b'n' ∷ b'g' ∷ [],
    )
    ∷ (
      b'.' ∷ b'j' ∷ b'p' ∷ b'g' ∷ [],
      b'i' ∷ b'm' ∷ b'a' ∷ b'g' ∷ b'e' ∷ b'/' ∷ b'j' ∷ b'p' ∷ b'e' ∷ b'g' ∷ [],
    )
    ∷ (
      b'.' ∷ b'j' ∷ b'p' ∷ b'e' ∷ b'g' ∷ [],
      b'i' ∷ b'm' ∷ b'a' ∷ b'g' ∷ b'e' ∷ b'/' ∷ b'j' ∷ b'p' ∷ b'e' ∷ b'g' ∷ [],
    )
    ∷ (
      b'.' ∷ b'g' ∷ b'i' ∷ b'f' ∷ [],
      b'i' ∷ b'm' ∷ b'a' ∷ b'g' ∷ b'e' ∷ b'/' ∷ b'g' ∷ b'i' ∷ b'f' ∷ [],
    )
    ∷ (
      b'.' ∷ b'b' ∷ b'm' ∷ b'p' ∷ [],
      b'i' ∷ b'm' ∷ b'a' ∷ b'g' ∷ b'e' ∷ b'/' ∷ b'b' ∷ b'm' ∷ b'p' ∷ [],
    )
    ∷ (
      b'.' ∷ b'w' ∷ b'e' ∷ b'b' ∷ b'p' ∷ [],
      b'i' ∷ b'm' ∷ b'a' ∷ b'g' ∷ b'e' ∷ b'/' ∷ b'w' ∷ b'e' ∷ b'b' ∷ b'p' ∷ [],
    )
    ∷ (
      b'.' ∷ b's' ∷ b'v' ∷ b'g' ∷ [],
      b'i' ∷ b'm' ∷ b'a' ∷ b'g' ∷ b'e' ∷ b'/' ∷ b's' ∷ b'v' ∷ b'g' ∷ b'+' ∷ b'x' ∷ b'm' ∷ b'l' ∷ [],
    )
    ∷ (
      b'.' ∷ b'i' ∷ b'c' ∷ b'o' ∷ [],
      b'i' ∷ b'm' ∷ b'a' ∷ b'g' ∷ b'e' ∷ b'/' ∷ b'x' ∷ b'-' ∷ b'i' ∷ b'c' ∷ b'o' ∷ b'n' ∷ [],
    )
    ∷ (
      b'.' ∷ b'w' ∷ b'o' ∷ b'f' ∷ b'f' ∷ [],
      b'f' ∷ b'o' ∷ b'n' ∷ b't' ∷ b'/' ∷ b'w' ∷ b'o' ∷ b'f' ∷ b'f' ∷ [],
    )
    ∷ (
      b'.' ∷ b'w' ∷ b'o' ∷ b'f' ∷ b'f' ∷ b'2' ∷ [],
      b'f' ∷ b'o' ∷ b'n' ∷ b't' ∷ b'/' ∷ b'w' ∷ b'o' ∷ b'f' ∷ b'f' ∷ b'2' ∷ [],
    )
    ∷ (b'.' ∷ b't' ∷ b't' ∷ b'f' ∷ [], b'f' ∷ b'o' ∷ b'n' ∷ b't' ∷ b'/' ∷ b't' ∷ b't' ∷ b'f' ∷ [])
    ∷ (b'.' ∷ b'o' ∷ b't' ∷ b'f' ∷ [], b'f' ∷ b'o' ∷ b'n' ∷ b't' ∷ b'/' ∷ b'o' ∷ b't' ∷ b'f' ∷ [])
    ∷ (
      b'.' ∷ b'm' ∷ b'p' ∷ b'3' ∷ [],
      b'a' ∷ b'u' ∷ b'd' ∷ b'i' ∷ b'o' ∷ b'/' ∷ b'm' ∷ b'p' ∷ b'e' ∷ b'g' ∷ [],
    )
    ∷ (
      b'.' ∷ b'w' ∷ b'a' ∷ b'v' ∷ [],
      b'a' ∷ b'u' ∷ b'd' ∷ b'i' ∷ b'o' ∷ b'/' ∷ b'w' ∷ b'a' ∷ b'v' ∷ [],
    )
    ∷ (
      b'.' ∷ b'o' ∷ b'g' ∷ b'g' ∷ [],
      b'a' ∷ b'u' ∷ b'd' ∷ b'i' ∷ b'o' ∷ b'/' ∷ b'o' ∷ b'g' ∷ b'g' ∷ [],
    )
    ∷ (
      b'.' ∷ b'f' ∷ b'l' ∷ b'a' ∷ b'c' ∷ [],
      b'a' ∷ b'u' ∷ b'd' ∷ b'i' ∷ b'o' ∷ b'/' ∷ b'f' ∷ b'l' ∷ b'a' ∷ b'c' ∷ [],
    )
    ∷ (
      b'.' ∷ b'a' ∷ b'a' ∷ b'c' ∷ [],
      b'a' ∷ b'u' ∷ b'd' ∷ b'i' ∷ b'o' ∷ b'/' ∷ b'a' ∷ b'a' ∷ b'c' ∷ [],
    )
    ∷ (
      b'.' ∷ b'm' ∷ b'p' ∷ b'4' ∷ [],
      b'v' ∷ b'i' ∷ b'd' ∷ b'e' ∷ b'o' ∷ b'/' ∷ b'm' ∷ b'p' ∷ b'4' ∷ [],
    )
    ∷ (
      b'.' ∷ b'w' ∷ b'e' ∷ b'b' ∷ b'm' ∷ [],
      b'v' ∷ b'i' ∷ b'd' ∷ b'e' ∷ b'o' ∷ b'/' ∷ b'w' ∷ b'e' ∷ b'b' ∷ b'm' ∷ [],
    )
    ∷ (
      b'.' ∷ b'a' ∷ b'v' ∷ b'i' ∷ [],
      b'v' ∷ b'i' ∷ b'd' ∷ b'e' ∷ b'o' ∷ b'/' ∷ b'x' ∷ b'-' ∷ b'm' ∷ b's' ∷ b'v' ∷ b'i' ∷ b'd'
          ∷ b'e' ∷ b'o' ∷ [],
    )
    ∷ (
      b'.' ∷ b'm' ∷ b'o' ∷ b'v' ∷ [],
      b'v' ∷ b'i' ∷ b'd' ∷ b'e' ∷ b'o' ∷ b'/' ∷ b'q' ∷ b'u' ∷ b'i' ∷ b'c' ∷ b'k' ∷ b't' ∷ b'i'
          ∷ b'm' ∷ b'e' ∷ [],
    )
    ∷ (
      b'.' ∷ b'm' ∷ b'k' ∷ b'v' ∷ [],
      b'v' ∷ b'i' ∷ b'd' ∷ b'e' ∷ b'o' ∷ b'/' ∷ b'x' ∷ b'-' ∷ b'm' ∷ b'a' ∷ b't' ∷ b'r' ∷ b'o'
          ∷ b's' ∷ b'k' ∷ b'a' ∷ [],
    )
    ∷ (
      b'.' ∷ b'z' ∷ b'i' ∷ b'p' ∷ [],
      b'a' ∷ b'p' ∷ b'p' ∷ b'l' ∷ b'i' ∷ b'c' ∷ b'a' ∷ b't' ∷ b'i' ∷ b'o' ∷ b'n' ∷ b'/' ∷ b'z'
          ∷ b'i' ∷ b'p' ∷ [],
    )
    ∷ (
      b'.' ∷ b't' ∷ b'a' ∷ b'r' ∷ [],
      b'a' ∷ b'p' ∷ b'p' ∷ b'l' ∷ b'i' ∷ b'c' ∷ b'a' ∷ b't' ∷ b'i' ∷ b'o' ∷ b'n' ∷ b'/' ∷ b'x'
          ∷ b'-' ∷ b't' ∷ b'a' ∷ b'r' ∷ [],
    )
    ∷ (
      b'.' ∷ b'g' ∷ b'z' ∷ [],
      b'a' ∷ b'p' ∷ b'p' ∷ b'l' ∷ b'i' ∷ b'c' ∷ b'a' ∷ b't' ∷ b'i' ∷ b'o' ∷ b'n' ∷ b'/' ∷ b'g'
          ∷ b'z' ∷ b'i' ∷ b'p' ∷ [],
    )
    ∷ (
      b'.' ∷ b'7' ∷ b'z' ∷ [],
      b'a' ∷ b'p' ∷ b'p' ∷ b'l' ∷ b'i' ∷ b'c' ∷ b'a' ∷ b't' ∷ b'i' ∷ b'o' ∷ b'n' ∷ b'/' ∷ b'x'
          ∷ b'-' ∷ b'7' ∷ b'z' ∷ b'-' ∷ b'c' ∷ b'o' ∷ b'm' ∷ b'p' ∷ b'r' ∷ b'e' ∷ b's' ∷ b's' ∷ b'e'
          ∷ b'd' ∷ [],
    )
    ∷ (
      b'.' ∷ b'r' ∷ b'a' ∷ b'r' ∷ [],
      b'a' ∷ b'p' ∷ b'p' ∷ b'l' ∷ b'i' ∷ b'c' ∷ b'a' ∷ b't' ∷ b'i' ∷ b'o' ∷ b'n' ∷ b'/' ∷ b'v'
          ∷ b'n' ∷ b'd' ∷ b'.' ∷ b'r' ∷ b'a' ∷ b'r' ∷ [],
    )
    ∷ (
      b'.' ∷ b'p' ∷ b'd' ∷ b'f' ∷ [],
      b'a' ∷ b'p' ∷ b'p' ∷ b'l' ∷ b'i' ∷ b'c' ∷ b'a' ∷ b't' ∷ b'i' ∷ b'o' ∷ b'n' ∷ b'/' ∷ b'p'
          ∷ b'd' ∷ b'f' ∷ [],
    )
    ∷ (
      b'.' ∷ b'w' ∷ b'a' ∷ b's' ∷ b'm' ∷ [],
      b'a' ∷ b'p' ∷ b'p' ∷ b'l' ∷ b'i' ∷ b'c' ∷ b'a' ∷ b't' ∷ b'i' ∷ b'o' ∷ b'n' ∷ b'/' ∷ b'w'
          ∷ b'a' ∷ b's' ∷ b'm' ∷ [],
    )
    ∷ (
      b'.' ∷ b'b' ∷ b'i' ∷ b'n' ∷ [],
      b'a' ∷ b'p' ∷ b'p' ∷ b'l' ∷ b'i' ∷ b'c' ∷ b'a' ∷ b't' ∷ b'i' ∷ b'o' ∷ b'n' ∷ b'/' ∷ b'o'
          ∷ b'c' ∷ b't' ∷ b'e' ∷ b't' ∷ b'-' ∷ b's' ∷ b't' ∷ b'r' ∷ b'e' ∷ b'a' ∷ b'm' ∷ [],
    )
    ∷ (
      b'.' ∷ b'e' ∷ b'x' ∷ b'e' ∷ [],
      b'a' ∷ b'p' ∷ b'p' ∷ b'l' ∷ b'i' ∷ b'c' ∷ b'a' ∷ b't' ∷ b'i' ∷ b'o' ∷ b'n' ∷ b'/' ∷ b'o'
          ∷ b'c' ∷ b't' ∷ b'e' ∷ b't' ∷ b'-' ∷ b's' ∷ b't' ∷ b'r' ∷ b'e' ∷ b'a' ∷ b'm' ∷ [],
    )
    ∷ []

unfoldable pub find_code : ℕ → List (ℕ × Text) → Option Text
find_code code [] = none
find_code code ((c, desc) ∷ table) =
    let rest = find_code code table in if c == code then some desc else rest

-- "Unknown Code"
abbrev unknown_code : Text
unknown_code =
    b'U' ∷ b'n' ∷ b'k' ∷ b'n' ∷ b'o' ∷ b'w' ∷ b'n' ∷ b' ' ∷ b'C' ∷ b'o' ∷ b'd' ∷ b'e' ∷ []

unfoldable pub get_status_desc : ℕ → Text
unfolding find_code status_text
get_status_desc code = elim (find_code code status_text) [ none ↦ unknown_code | some desc ↦ desc ]

-- "application/octet-stream"
abbrev pub octet_stream : Text
octet_stream =
    b'a' ∷ b'p' ∷ b'p' ∷ b'l' ∷ b'i' ∷ b'c' ∷ b'a' ∷ b't' ∷ b'i' ∷ b'o' ∷ b'n' ∷ b'/' ∷ b'o' ∷ b'c'
    ∷ b't' ∷ b'e' ∷ b't' ∷ b'-' ∷ b's' ∷ b't' ∷ b'r' ∷ b'e' ∷ b'a' ∷ b'm' ∷ []

-- `rfind`: where the byte last stands.
unfoldable pub rfind : ℕ → Text → Option ℕ
rfind ch [] = none
rfind ch (x ∷ xs) =
    let rest = rfind ch xs in
    elim rest [ none ↦ if x == ch then some 0 else none | some i ↦ some (i + 1) ]

unfoldable pub get_mime : Text → Text
unfolding rfind lookup mime_types
get_mime filename = elim (rfind b'.' filename) [
  | none ↦ octet_stream
  | some at ↦ elim (lookup (drop at filename) mime_types) [ none ↦ octet_stream | some mime ↦ mime ]
]

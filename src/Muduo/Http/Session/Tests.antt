-- ===== src/Muduo/Http/Session/Tests.antt =====
-- A connection with two requests in its buffer, on a server without files or routes.
use linux_os.Base.{ℕ, ◌≡◌, refl, List, [], ◌∷◌, ◌++◌, none, some, false, arith, length}
use linux_os.Muduo.Buffer.{Buffer}
use linux_os.Muduo.Http.Context.{Run, returned, thrown, aborted, new_context}
use linux_os.Muduo.Http.Server.{FileSystem}
use linux_os.Muduo.Http.Session.{Session, current_context, new_server, on_message}
use linux_os.Muduo.Http.Session.Ends.{IsReady, Throws, Ends, on_message-Ends}

-- "GET / HTTP/1.1\n\nGET / HTTP/1.1\n\n"
abbrev two_requests : List ℕ
two_requests =
    b'G' ∷ b'E' ∷ b'T' ∷ b' ' ∷ b'/' ∷ b' ' ∷ b'H' ∷ b'T' ∷ b'T' ∷ b'P' ∷ b'/' ∷ b'1' ∷ b'.' ∷ b'1'
    ∷ b'\n' ∷ b'\n' ∷ b'G' ∷ b'E' ∷ b'T' ∷ b' ' ∷ b'/' ∷ b' ' ∷ b'H' ∷ b'T' ∷ b'T' ∷ b'P' ∷ b'/'
    ∷ b'1' ∷ b'.' ∷ b'1' ∷ b'\n' ∷ b'\n' ∷ []

abbrev full_buffer : Buffer
full_buffer = record { buffer = two_requests; write_idx = length two_requests; read_idx = 0 }

abbrev no_files : FileSystem
no_files = record { is_directory = λ f. false; is_regular = λ f. false; read_file = λ f. none }

abbrev connection : Session
connection = record { context = some new_context; buffer = full_buffer; sent = []; is_shut = false }

abbrev answers : Run Session → ℕ
answers (returned s) = length s.sent
answers thrown = 0
answers aborted = 0

connection-IsReady : IsReady connection
unfolding new_context current_context
connection-IsReady = record {
  code_fits = refl;
  valid = record { ordered = omega arith; inside = omega arith; small = omega arith };
}

-- "www/"
new_server-test : (new_server (b'w' ∷ b'/' ∷ [])).base_dir ≡ b'w' ∷ []
unfolding new_server
new_server-test = refl

on_message-test : answers (on_message no_files (new_server []) connection) ≡ 2
unfolding on_message new_server new_context
on_message-test = refl

-- "GET / HTTP/1.0\n\n", twice: each asks to close the connection.
abbrev closing_request : List ℕ
closing_request =
    b'G' ∷ b'E' ∷ b'T' ∷ b' ' ∷ b'/' ∷ b' ' ∷ b'H' ∷ b'T' ∷ b'T' ∷ b'P' ∷ b'/' ∷ b'1' ∷ b'.' ∷ b'0'
    ∷ b'\n' ∷ b'\n' ∷ []

abbrev closing_buffer : Buffer
closing_buffer = record {
  buffer = closing_request ++ closing_request;
  write_idx = 32;
  read_idx = 0;
}

abbrev closing : Session
closing = record connection { buffer = closing_buffer }

-- The second is answered too, by the call of OnMessage inside ShutDown.
closing-test : answers (on_message no_files (new_server []) closing) ≡ 2
unfolding on_message new_server new_context
closing-test = refl

on_message-Ends_example :
    Ends
      (Throws no_files (new_server []) connection)
      (on_message no_files (new_server []) connection)
on_message-Ends_example = on_message-Ends no_files (new_server []) connection connection-IsReady

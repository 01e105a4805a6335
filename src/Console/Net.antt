-- ===== src/Console/Net.antt =====
-- main/src/console/net_console.c: the console behind a TCP socket. What the sockets answer is an
-- argument: a read is the bytes that it delivers, at most 500, and an empty read stands for a
-- result of 0 or less.
pub mod Answers
pub mod Sockets
pub mod End
pub mod Wire
pub mod Session
pub mod Split
use univr_info_workshop.Common.{
  ℕ, suc, Bool, true, false, Option, none, some, List, [], ◌∷◌, ◌++◌, ◌==◌, if◌then◌else◌, length,
  Outcome, ok, ◌>>=◌,
}
use univr_info_workshop.Error.{ErrorCode}
use univr_info_workshop.Console.{Bytes, run_command}

-- The C string in a buffer: the bytes before the first zero.
pub c_string : Bytes → Bytes
c_string [] = []
c_string (c ∷ s) = if c == 0 then [] else c ∷ c_string s

-- Line 54 puts a zero over the last byte of the read.
pub but_last : Bytes → Bytes
but_last [] = []
but_last (c ∷ []) = []
but_last (c ∷ d ∷ s) = c ∷ but_last (d ∷ s)

-- `Console_GetCommand`: the reads until one is empty, each run as a command of its own.
pub get_command : (version : Bytes) → List Bytes → Outcome (List (ErrorCode × List Bytes))
unfolding c_string but_last
get_command version [] = ok []
get_command version (chunk ∷ chunks) = if length chunk == 0 then ok [] else do
  answer ← run_command version (c_string (but_last chunk))
  answers ← get_command version chunks
  ok (answer ∷ answers)

-- What the server does with its sockets.
pub data Action : Type 0 where
  opens_server closes_server opens_client closes_client : Action
  serves : List (ErrorCode × List Bytes) → Action

-- The loop of lines 109 to 144 on the results of accept: a client with its reads, or `none` for a
-- failure, which closes the server. The list ends where the server waits for a client.
pub accept_loop : (version : Bytes) → List (Option (List Bytes)) → Outcome (List Action)
unfolding get_command
accept_loop version [] = ok []
accept_loop version (none ∷ clients) = ok (Action.closes_server ∷ [])
accept_loop version (some chunks ∷ clients) = do
  answers ← get_command version chunks
  rest ← accept_loop version clients
  ok (Action.opens_client ∷ Action.serves answers ∷ Action.closes_client ∷ rest)

-- `Console_NetConsoleMain`: whether socket, bind and listen succeed, and the results of accept.
pub net_console_main :
    (version : Bytes) (socket bind listen : Bool)
    → List (Option (List Bytes))
    → Outcome (List Action)
unfolding accept_loop
net_console_main version false bind listen clients = ok []
net_console_main version true false listen clients =
    ok (Action.opens_server ∷ Action.closes_server ∷ [])
net_console_main version true true false clients =
    ok (Action.opens_server ∷ Action.closes_server ∷ [])
net_console_main version true true true clients = do
  actions ← accept_loop version clients
  ok (Action.opens_server ∷ actions)

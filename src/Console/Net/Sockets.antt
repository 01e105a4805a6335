-- ===== src/Console/Net/Sockets.antt =====
-- The sockets of the remote console: in which order they are opened and closed.
use univr_info_workshop.Common.{
  ◌<◌, ◌≡◌, refl, Bool, true, false, ◌&&◌, Option, none, some, List, [], ◌∷◌, if◌then◌else◌, length,
  ok,
}
use univr_info_workshop.Console.{Bytes, cmd_response_max_length}
use univr_info_workshop.Console.Net.{Action, accept_loop, net_console_main}
use univr_info_workshop.Console.Net.Answers.{get_command-AreAnswers}

-- How far the server is: before its socket, waiting for a client on its own socket, with a client's
-- socket open as well, or after its socket was closed for good.
pub data Stage : Type 0 where
  begins listens talks finished : Stage

-- What an action does to the open sockets; `none` where it is out of place: a second socket of a
-- kind, a close or a use of one that is not open, a close of the server's before the client's, or
-- anything after that.
abbrev pub act : Stage → Action → Option Stage
act Stage.begins Action.opens_server = some Stage.listens
act Stage.listens Action.opens_client = some Stage.talks
act Stage.listens Action.closes_server = some Stage.finished
act Stage.talks (Action.serves answers) = some Stage.talks
act Stage.talks Action.closes_client = some Stage.listens
act _ _ = none

unfoldable pub act_all : Stage → List Action → Option Stage
act_all s [] = some s
act_all s (a ∷ acts) = elim (act s a) [ none ↦ none | some s' ↦ act_all s' acts ]

-- Whether every accept succeeds.
unfoldable pub all_accepted : List (Option (List Bytes)) → Bool
all_accepted [] = true
all_accepted (none ∷ clients) = false
all_accepted (some chunks ∷ clients) = all_accepted clients

accept_loop-closes :
    (version : Bytes) (clients : List (Option (List Bytes)))
    → length version < cmd_response_max_length
    → (acts : List Action) × (accept_loop version clients ≡ ok acts)
      × (act_all Stage.listens acts
          ≡ some (if all_accepted clients then Stage.listens else Stage.finished))
unfolding accept_loop act_all all_accepted
accept_loop-closes version [] short = ([], refl, refl)
accept_loop-closes version (none ∷ clients) short = (Action.closes_server ∷ [], refl, refl)
accept_loop-closes version (some chunks ∷ clients) short =
    let (answers, e, _) = get_command-AreAnswers version chunks short in
    let (acts, f, closes) = accept_loop-closes version clients short in
    (Action.opens_client ∷ Action.serves answers ∷ Action.closes_client ∷ acts, rw (e, f), closes)

-- The server leaks no socket, whatever the sockets answer and the clients send: it opens its own
-- socket first, each client's socket is open only while that client is served and is closed
-- before anything else, and no socket is closed or used that is not open. Where the socket cannot
-- be made nothing is opened; where bind, listen or an accept fails, the server's socket is
-- closed, as the last thing that is done with any socket; and otherwise the server waits with its
-- own socket open and no other.
pub net_console_main-closes :
    (version : Bytes) (socket bind listen : Bool) (clients : List (Option (List Bytes)))
    → length version < cmd_response_max_length
    → (acts : List Action) × (net_console_main version socket bind listen clients ≡ ok acts)
      × (act_all Stage.begins acts
          ≡ some (
              if socket
              then (if bind && listen && all_accepted clients
                  then Stage.listens
                  else Stage.finished)
              else Stage.begins))
unfolding net_console_main act_all
net_console_main-closes version false bind listen clients short = ([], refl, refl)
net_console_main-closes version true false listen clients short =
    (Action.opens_server ∷ Action.closes_server ∷ [], refl, refl)
net_console_main-closes version true true false clients short =
    (Action.opens_server ∷ Action.closes_server ∷ [], refl, refl)
net_console_main-closes version true true true clients short =
    let (acts, e, closes) = accept_loop-closes version clients short in
    (Action.opens_server ∷ acts, rw e, closes)

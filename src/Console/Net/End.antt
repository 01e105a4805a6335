-- ===== src/Console/Net/End.antt =====
-- When `Console_NetConsoleMain` returns.
use univr_info_workshop.Common.{
  ◌<◌, ◌≡◌, refl, Bool, true, false, ◌&&◌, Option, none, some, List, [], ◌∷◌, length, if◌then◌else◌,
  ok,
}
use univr_info_workshop.Console.{Bytes, cmd_response_max_length}
use univr_info_workshop.Console.Net.{Action, accept_loop, net_console_main}
use univr_info_workshop.Console.Net.Sockets.{all_accepted}
use univr_info_workshop.Console.Net.Answers.{get_command-AreAnswers}

abbrev closes_the_server : Action → Bool
closes_the_server Action.closes_server = true
closes_the_server _ = false

unfoldable ends_with_close : Action → List Action → Bool
ends_with_close a [] = closes_the_server a
ends_with_close a (b ∷ acts) = ends_with_close b acts

-- Whether the function is over after these actions: it did not open its socket, or closed it as the last
-- thing. It waits for a client otherwise.
pub is_over : List Action → Bool
unfolding ends_with_close
is_over [] = true
is_over (a ∷ acts) = ends_with_close a acts

accept_loop-ends :
    (version : Bytes) (a : Action) (clients : List (Option (List Bytes)))
    → length version < cmd_response_max_length
    → closes_the_server a ≡ false
    → (acts : List Action) × (accept_loop version clients ≡ ok acts)
      × (ends_with_close a acts ≡ (if all_accepted clients then false else true))
unfolding accept_loop all_accepted ends_with_close
accept_loop-ends version a [] short on = ([], refl, on)
accept_loop-ends version a (none ∷ clients) short on = (Action.closes_server ∷ [], refl, refl)
accept_loop-ends version a (some chunks ∷ clients) short on =
    let (answers, e, _) = get_command-AreAnswers version chunks short in
    let (acts, f, over) = accept_loop-ends version Action.closes_client clients short refl in
    (Action.opens_client ∷ Action.serves answers ∷ Action.closes_client ∷ acts, rw (e, f), over)

-- The function is over when one of the four calls fails, and waits for a client otherwise.
pub net_console_main-is_over :
    (version : Bytes) (socket bind listen : Bool) (clients : List (Option (List Bytes)))
    → length version < cmd_response_max_length
    → (acts : List Action) × (net_console_main version socket bind listen clients ≡ ok acts)
      × (is_over acts ≡ (if socket && bind && listen && all_accepted clients then false else true))
unfolding net_console_main is_over
net_console_main-is_over version false bind listen clients short = ([], refl, refl)
net_console_main-is_over version true false listen clients short =
    (Action.opens_server ∷ Action.closes_server ∷ [], refl, refl)
net_console_main-is_over version true true false clients short =
    (Action.opens_server ∷ Action.closes_server ∷ [], refl, refl)
net_console_main-is_over version true true true clients short =
    let (acts, e, over) = accept_loop-ends version Action.opens_server clients short refl in
    (Action.opens_server ∷ acts, rw e refl, over)

-- ===== src/Cli/Commands.antt =====
-- The two switches over the chat's commands: handleCommand's and handleInteractiveCommand's.
use gpuswarm.Common.{Str, str, str_eq, List, [], ◌∷◌, if◌then◌else◌, ◌≡◌, refl}
use gpuswarm.Common.Split.{fields}

-- What a line asks for; the first word is compared as it stands.
pub data Command : Type 0 where
  nothing menu help status quit models peers pick_model pick_peer routing_usage unknown : Command
  model use_peer routing : Str → Command

unfoldable pub with_argument : Command → (Str → Command) → List Str → Command
with_argument bare f [] = bare
with_argument bare f (a ∷ args) = f a

-- The switch of handleCommand.
unfoldable pub command_of : List Str → Command
command_of [] = nothing
command_of (w ∷ args) =
    if str_eq w (str "/")
    then menu
    else if str_eq w (str "/help")
    then help
    else if str_eq w (str "/?")
    then help
    else if str_eq w (str "/status")
    then status
    else if str_eq w (str "/current")
    then status
    else if str_eq w (str "/quit")
    then quit
    else if str_eq w (str "/exit")
    then quit
    else if str_eq w (str "/models")
    then models
    else if str_eq w (str "/model")
    then with_argument pick_model model args
    else if str_eq w (str "/peers")
    then peers
    else if str_eq w (str "/use")
    then with_argument pick_peer use_peer args
    else if str_eq w (str "/routing")
    then with_argument routing_usage routing args
    else unknown

-- handleCommand, up to the call that the command makes.
unfoldable pub parse_command : Str → Command
parse_command line = command_of (fields line)

-- The switch of handleInteractiveCommand.
unfoldable pub interactive_command_of : List Str → Command
interactive_command_of [] = nothing
interactive_command_of (w ∷ args) =
    if str_eq w (str "/")
    then menu
    else if str_eq w (str "/help")
    then help
    else if str_eq w (str "/?")
    then help
    else if str_eq w (str "/status")
    then status
    else if str_eq w (str "/current")
    then status
    else if str_eq w (str "/quit")
    then quit
    else if str_eq w (str "/exit")
    then quit
    else if str_eq w (str "/models")
    then models
    else if str_eq w (str "/model")
    then with_argument pick_model model args
    else if str_eq w (str "/peers")
    then peers
    else if str_eq w (str "/use")
    then with_argument pick_peer use_peer args
    else if str_eq w (str "/routing")
    then with_argument routing_usage routing args
    else unknown

-- handleInteractiveCommand, up to the call that the command makes.
unfoldable pub parse_interactive_command : Str → Command
parse_interactive_command line = interactive_command_of (fields line)

switch_alike : (words : List Str) → interactive_command_of words ≡ command_of words
unfolding interactive_command_of command_of
switch_alike [] = refl
switch_alike (w ∷ args) = refl

-- The two switches know the same commands, and read them alike.
pub parse_alike : (line : Str) → parse_interactive_command line ≡ parse_command line
unfolding parse_interactive_command parse_command
parse_alike line = switch_alike (fields line)

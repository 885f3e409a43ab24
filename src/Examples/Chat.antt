-- ===== src/Examples/Chat.antt =====
-- A short chat with two peers.
use gpuswarm.Common.{
  ◌≡◌, some, none, str, str_eq, is_empty, trim_space, [], ◌∷◌, map, refl, ok, All, arith,
}
use gpuswarm.Common.Floats.{thousandths}
use gpuswarm.Common.Maps.{in_order}
use gpuswarm.Common.Sorting.{insertion}
use gpuswarm.Common.Split.{fields, words, lead}
use gpuswarm.Cli.Pinned.{service_mesh}
use gpuswarm.Cli.Commands.{parse_command, command_of, with_argument}
use gpuswarm.Cli.Repl.{Daemon, Chat, Exit, line, run_repl, run_interactive}
use gpuswarm.Cli.Repl.Ends.{PlainLine, run_repl_ends, loops_alike}
use gpuswarm.Examples.Command.{requests}
use gpuswarm.Examples.{slow, fast}
use gpuswarm.Examples.App.{client}

abbrev daemon : Daemon thousandths.F
daemon = record {
  mesh = service_mesh thousandths requests;
  fetch_peers = λ m. (m, ok (slow ∷ fast ∷ []));
  fetch_routing = λ m. (m, none);
  send_prompt = λ m name prompt. (m, none);
}

abbrev chat : Chat thousandths insertion in_order daemon
chat = record { current = str "llama3"; m = client }

run_repl_ends_example :
    (end : Chat thousandths insertion in_order daemon × Exit) × (run_repl thousandths insertion
        in_order daemon 4 chat
        (str "/use" ∷ (str "1" ∷ (str "hello" ∷ [])))
      ≡ some end)
run_repl_ends_example =
    run_repl_ends thousandths insertion in_order daemon 4 chat
      (str "/use" ∷ (str "1" ∷ (str "hello" ∷ []))) (omega arith)

plain_lines : All PlainLine (str "hello" ∷ (str "/routing auto" ∷ []))
unfolding parse_command command_of fields trim_space str_eq is_empty words lead with_argument
plain_lines = (refl, (refl, tt))

loops_alike_example :
    run_repl thousandths insertion in_order daemon 3 chat (str "hello" ∷ (str "/routing auto" ∷ []))
    ≡ some (
        run_interactive thousandths insertion in_order daemon chat
          (map (λ l. line l none none) (str "hello" ∷ (str "/routing auto" ∷ []))))
loops_alike_example =
    loops_alike thousandths insertion in_order daemon 3 chat
      (str "hello" ∷ (str "/routing auto" ∷ [])) none none (omega arith) plain_lines

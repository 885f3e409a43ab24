-- ===== src/Cli/Repl.antt =====
-- RunREPL and handleCommand, on the lines of the input, and RunInteractive and
-- handleInteractiveCommand, on what the line editor and its menus give. The daemon is an interface; what
-- is printed is left out, and a line is one that the scanner accepts.
pub mod Ends
use gpuswarm.Common.{
  ℕ, zero, suc, Bool, true, false, ◌&&◌, not, Option, none, some, Str, str, str_eq, is_empty,
  trim_space, has_prefix, List, [], ◌∷◌, find, length, get_elem?, leb, if◌then◌else◌, Result, ok,
  err,
}
use gpuswarm.Common.Int.{ℤ}
use gpuswarm.Common.Numbers.{atoi}
use gpuswarm.Common.Floats.{Float64}
use gpuswarm.Common.Sorting.{SortSlice}
use gpuswarm.Common.Maps.{MapRange}
use gpuswarm.Model.{CapabilityDocument}
use gpuswarm.Cli.{Mesh, ModelChoice, Pick, typed, arrows}
use gpuswarm.Cli.Commands.{
  Command, nothing, menu, help, status, quit, models, peers, pick_model, pick_peer, routing_usage,
  unknown, model, use_peer, routing, parse_command, parse_interactive_command,
}
use gpuswarm.Cli.Selection.{
  build_model_choices, numbered_model, select_model, select_peer_by_arg, select_peer_and_model,
  at_number, model_names,
}

pub record Daemon (F : Type 0) : Type 1 where
  pub mesh : Mesh
  pub fetch_peers : mesh.M → mesh.M × Result Str (List (CapabilityDocument F))
  -- fetchRoutingSettings and sendPromptWithStats, which say whether they failed.
  pub fetch_routing : mesh.M → mesh.M × Option Str
  pub send_prompt : mesh.M → Str → Str → mesh.M × Option Str

-- What comes after a command.
pub data Outcome : Type 0 where
  go_on leave : Outcome
  failed : Str → Outcome

-- How a loop ends.
pub data Exit : Type 0 where
  end_of_input left : Exit
  aborted : Str → Exit

-- What the line editor reads: ^C, or a line, with the entries that are chosen in the menus that it
-- opens, if they are opened; none where a menu is left.
pub data Input : Type 0 where
  interrupt : Input
  line : Str → Option ℕ → Option ℕ → Input

unfoldable pub outcome_of : Option Str → Outcome
outcome_of none = go_on
outcome_of (some e) = failed e

unfoldable pub error_of : {A : Type 0} → Result Str A → Option Str
error_of (ok x) = none
error_of (err e) = some e

unfoldable pub without_first : List Str → List Str
without_first [] = []
without_first (l ∷ ls) = ls

module _ (fl : Float64) (sorting : SortSlice) (maps : MapRange) (d : Daemon fl.F) where
  open fl use {F}
  open d use {mesh, fetch_peers, fetch_routing, send_prompt}

  -- The chat: opts.Model, and the daemon behind it.
  pub record Chat : Type 0 where
    pub current : Str
    pub m : mesh.M

  abbrev pub Handled : Type 0
  Handled = (Chat × List Str) × Outcome

  -- The chat after a selection.
  unfoldable pub selected_chat : Str × (mesh.M × Option Str) → Chat
  selected_chat (current, (m, e)) = record { current = current; m = m }

  -- selectModel reads a line for the provider if there are several.
  unfoldable pub after_model : Result Str (Option (ModelChoice F)) → List Str → List Str
  after_model (err e) ls = ls
  after_model (ok none) ls = ls
  after_model (ok (some c)) ls = if leb 2 (length c.providers) then without_first ls else ls

  unfoldable pub lines_after_model :
      Result Str (List (CapabilityDocument F)) → Str → List Str → List Str
  lines_after_model (err e) word ls = ls
  lines_after_model (ok docs) word ls =
      after_model
        (numbered_model fl sorting maps mesh (build_model_choices fl sorting maps docs)
          (atoi (trim_space word)) (trim_space word))
        ls

  -- selectPeerAndModel reads a line for the model if the peer was selected and has several.
  unfoldable pub after_peer : Option (CapabilityDocument F) → Option Str → List Str → List Str
  after_peer none e ls = ls
  after_peer (some p) (some e) ls = ls
  after_peer (some p) none ls =
      if leb 2 (length (model_names fl sorting maps mesh p.models)) then without_first ls else ls

  -- The document that selectPeerByArg finds.
  unfoldable pub named_peer :
      Result Str (List (CapabilityDocument F)) → Str → Option (CapabilityDocument F)
  named_peer (err e) arg = none
  named_peer (ok docs) arg = elim (atoi arg) [
    | some i ↦ at_number fl sorting maps mesh docs i
    | none ↦ find (λ p. str_eq p.peer_id arg) docs
  ]

  unfoldable pub type_model : Chat → Str → List Str → Handled
  type_model c word ls =
      let (m, docs) = fetch_peers c.m in
      let selection = select_model fl sorting maps mesh c.current m docs word (typed ls) in
      ((selected_chat selection, lines_after_model docs word ls), outcome_of selection.1.1)

  unfoldable pub type_peer : Chat → Str → List Str → Handled
  type_peer c arg ls =
      let (m, docs) = fetch_peers c.m in
      let selection = select_peer_by_arg fl sorting maps mesh c.current m docs arg (typed ls) in
      (
        (selected_chat selection, after_peer (named_peer docs (trim_space arg)) selection.1.1 ls),
        outcome_of selection.1.1,
      )

  unfoldable pub at_daemon : Chat → mesh.M → Chat
  at_daemon c m = record c { m = m }

  -- Errors of a selection from a list are printed.
  unfoldable pub printed : Handled → Handled
  printed ((c, ls), o) = ((c, ls), go_on)

  unfoldable pub answered_by : (Chat → Str → List Str → Handled) → Chat → List Str → Handled
  answered_by select c [] = ((c, []), go_on)
  answered_by select c (l ∷ ls) =
      if is_empty (trim_space l) then ((c, ls), go_on) else printed (select c (trim_space l) ls)

  -- pickModelInteractive
  unfoldable pub pick_typed_model :
      Chat → Result Str (List (CapabilityDocument F)) → List Str → Handled
  pick_typed_model c (err e) ls = ((c, ls), failed e)
  pick_typed_model c (ok docs) ls = answered_by type_model c ls

  -- pickPeerInteractive, which prints the peers from a request of its own.
  unfoldable pub pick_typed_peer :
      Chat → Result Str (List (CapabilityDocument F)) → List Str → Handled
  pick_typed_peer c (err e) ls = ((c, ls), failed e)
  pick_typed_peer c (ok []) ls = ((c, ls), go_on)
  pick_typed_peer c (ok (p ∷ docs)) ls =
      let (m, again) = fetch_peers c.m in answered_by type_peer (at_daemon c m) ls

  unfoldable pub set_chat_routing : Chat → Str → Chat × Outcome
  set_chat_routing c policy =
      let (m, e) = mesh.set_routing c.m policy in (at_daemon c m, outcome_of e)

  -- printStatus, which ignores that the peers cannot be fetched.
  unfoldable pub status_shown : Chat → mesh.M × Option Str → Chat × Outcome
  status_shown c (m, some e) = (at_daemon c m, failed e)
  status_shown c (m, none) = (at_daemon c (fetch_peers m).0, go_on)

  -- printModels and printPeers.
  unfoldable pub listing_shown : Chat → Chat × Outcome
  listing_shown c = let (m, docs) = fetch_peers c.m in (at_daemon c m, outcome_of (error_of docs))

  unfoldable pub with_lines : List Str → Chat × Outcome → Handled
  with_lines ls (c, o) = ((c, ls), o)

  -- handleCommand
  unfoldable pub handle_command : Chat → List Str → Command → Handled
  handle_command c ls pick_model =
      let (m, docs) = fetch_peers c.m in pick_typed_model (at_daemon c m) docs ls
  handle_command c ls (model word) = type_model c (trim_space word) ls
  handle_command c ls pick_peer =
      let (m, docs) = fetch_peers c.m in pick_typed_peer (at_daemon c m) docs ls
  handle_command c ls (use_peer arg) = type_peer c arg ls
  handle_command c ls status = with_lines ls (status_shown c (fetch_routing c.m))
  handle_command c ls quit = with_lines ls (c, leave)
  handle_command c ls models = with_lines ls (listing_shown c)
  handle_command c ls peers = with_lines ls (listing_shown c)
  handle_command c ls (routing policy) = with_lines ls (set_chat_routing c policy)
  handle_command c ls nothing = with_lines ls (c, go_on)
  handle_command c ls menu = with_lines ls (c, go_on)
  handle_command c ls help = with_lines ls (c, go_on)
  handle_command c ls routing_usage = with_lines ls (c, go_on)
  handle_command c ls unknown = with_lines ls (c, go_on)

  -- A line that is no command is sent to the current model; an error is printed.
  unfoldable pub send_line : Chat → Str → Chat
  send_line c text = at_daemon c (send_prompt c.m c.current text).0

  unfoldable pub handle_line : Chat → List Str → Str → Handled
  handle_line c ls text =
      if is_empty text
      then ((c, ls), go_on)
      else if has_prefix text (str "/")
      then handle_command c ls (parse_command text)
      else ((send_line c text, ls), go_on)

  unfoldable pub next_round :
      (Chat → List Str → Option (Chat × Exit)) → Handled → Option (Chat × Exit)
  next_round loop ((c, ls), go_on) = loop c ls
  next_round loop ((c, ls), leave) = some (c, left)
  next_round loop ((c, ls), failed e) = some (c, aborted e)

  -- RunREPL, for a number of rounds; `none` if it is still running after them.
  unfoldable pub run_repl : ℕ → Chat → List Str → Option (Chat × Exit)
  run_repl zero c ls = none
  run_repl (suc rounds) c [] = some (c, end_of_input)
  run_repl (suc rounds) c (l ∷ ls) = next_round (run_repl rounds) (handle_line c ls (trim_space l))

  -- selectModel and selectPeerByArg with a menu.
  unfoldable pub choose_model : Chat → Str → Option ℕ → Chat × Outcome
  choose_model c word entry =
      let (m, docs) = fetch_peers c.m in
      let selection = select_model fl sorting maps mesh c.current m docs word (arrows entry) in
      (selected_chat selection, outcome_of selection.1.1)

  unfoldable pub choose_peer : Chat → Str → Option ℕ → Chat × Outcome
  choose_peer c arg entry =
      let (m, docs) = fetch_peers c.m in
      let selection = select_peer_by_arg fl sorting maps mesh c.current m docs arg (arrows entry) in
      (selected_chat selection, outcome_of selection.1.1)

  unfoldable pub entry_of : {A : Type 0} → List A → Option ℕ → Option A
  entry_of xs none = none
  entry_of xs (some i) = get_elem? xs i

  -- pickModelArrow
  unfoldable pub pick_model_arrow :
      Chat → Result Str (List (CapabilityDocument F)) → Option ℕ → Option ℕ → Chat × Outcome
  pick_model_arrow c (err e) first second = (c, failed e)
  pick_model_arrow c (ok docs) first second =
      elim (entry_of (build_model_choices fl sorting maps docs) first) [
        | none ↦ (c, go_on)
        | some choice ↦ choose_model c choice.name second
      ]

  -- pickPeerArrow
  unfoldable pub pick_peer_arrow :
      Chat → Result Str (List (CapabilityDocument F)) → Option ℕ → Option ℕ → Chat × Outcome
  pick_peer_arrow c (err e) first second = (c, failed e)
  pick_peer_arrow c (ok docs) first second = elim (entry_of docs first) [
    | none ↦ (c, go_on)
    | some p ↦
        let selection =
          select_peer_and_model fl sorting maps mesh c.current c.m p (arrows second) in
        (selected_chat selection, outcome_of selection.1.1)
  ]

  -- handleInteractiveCommand
  unfoldable pub handle_interactive_command : Chat → Command → Option ℕ → Option ℕ → Chat × Outcome
  handle_interactive_command c pick_model first second =
      let (m, docs) = fetch_peers c.m in pick_model_arrow (at_daemon c m) docs first second
  handle_interactive_command c (model word) first second = choose_model c (trim_space word) first
  handle_interactive_command c pick_peer first second =
      let (m, docs) = fetch_peers c.m in pick_peer_arrow (at_daemon c m) docs first second
  handle_interactive_command c (use_peer arg) first second = choose_peer c arg first
  handle_interactive_command c status first second = status_shown c (fetch_routing c.m)
  handle_interactive_command c quit first second = (c, leave)
  handle_interactive_command c models first second = listing_shown c
  handle_interactive_command c peers first second = listing_shown c
  handle_interactive_command c (routing policy) first second = set_chat_routing c policy
  handle_interactive_command c nothing first second = (c, go_on)
  handle_interactive_command c menu first second = (c, go_on)
  handle_interactive_command c help first second = (c, go_on)
  handle_interactive_command c routing_usage first second = (c, go_on)
  handle_interactive_command c unknown first second = (c, go_on)

  unfoldable pub handle_input : Chat → Str → Option ℕ → Option ℕ → Chat × Outcome
  handle_input c text first second =
      if is_empty text
      then (c, go_on)
      else if has_prefix text (str "/")
      then handle_interactive_command c (parse_interactive_command text) first second
      else (send_line c text, go_on)

  unfoldable pub next_input : (Chat → Chat × Exit) → Chat × Outcome → Chat × Exit
  next_input loop (c, go_on) = loop c
  next_input loop (c, leave) = (c, left)
  next_input loop (c, failed e) = (c, aborted e)

  -- RunInteractive
  unfoldable pub run_interactive : Chat → List Input → Chat × Exit
  run_interactive c [] = (c, end_of_input)
  run_interactive c (interrupt ∷ inputs) = run_interactive c inputs
  run_interactive c (line l first second ∷ inputs) =
      next_input (λ c'. run_interactive c' inputs) (handle_input c (trim_space l) first second)

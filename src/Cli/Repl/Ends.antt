-- ===== src/Cli/Repl/Ends.antt =====
-- The chat's loops end, and treat alike what asks for no choice.
use gpuswarm.Common.{
  ℕ, zero, suc, ◌≤◌, ◌<◌, Bool, true, false, Option, none, some, Str, str, is_empty, trim_space,
  has_prefix, List, [], ◌∷◌, map, All, length, Result, ok, err, ◌≡◌, refl, arith, Bool-cases, inl,
  inr, ap, ◌∙◌,
}
use gpuswarm.Common.Floats.{Float64}
use gpuswarm.Common.Sorting.{SortSlice}
use gpuswarm.Common.Maps.{MapRange}
use gpuswarm.Model.{CapabilityDocument}
use gpuswarm.Cli.{ModelChoice}
use gpuswarm.Cli.Commands.{
  Command, pick_model, pick_peer, model, use_peer, parse_command, parse_alike, nothing, menu, help,
  status, quit, models, peers, routing_usage, unknown, routing,
}
use gpuswarm.Cli.Repl.{
  Daemon, Outcome, go_on, leave, failed, Exit, end_of_input, left, aborted, line, without_first,
  Chat, Handled, after_model, lines_after_model, after_peer, type_model, type_peer, printed,
  answered_by, pick_typed_model, pick_typed_peer, with_lines, handle_command, handle_line,
  next_round, next_input, run_repl, handle_interactive_command, handle_input, run_interactive,
}

-- A command that asks for no choice of a model or a peer.
abbrev pub asks_for_none : Command → Bool
asks_for_none pick_model = false
asks_for_none pick_peer = false
asks_for_none (model word) = false
asks_for_none (use_peer arg) = false
asks_for_none other = true

abbrev pub PlainLine : Str → Type 0
PlainLine l = asks_for_none (parse_command (trim_space l)) ≡ true

length-without_first-le : (ls : List Str) → length (without_first ls) ≤ length ls
unfolding without_first
length-without_first-le [] = omega arith
length-without_first-le (l ∷ ls) = omega arith

module _ (fl : Float64) (sorting : SortSlice) (maps : MapRange) (d : Daemon fl.F) where
  open fl use {F}

  abbrev Rest : Handled fl sorting maps d → List Str → Type 0
  Rest h ls = length h.0.1 ≤ length ls

  after_model-le :
      (r : Result Str (Option (ModelChoice F))) (ls : List Str)
      → length (after_model fl sorting maps d r ls) ≤ length ls
  unfolding after_model
  after_model-le (err e) ls = omega arith
  after_model-le (ok none) ls = omega arith
  after_model-le (ok (some c)) ls = ground (arith, length-without_first-le ls)

  lines_after_model-le :
      (docs : Result Str (List (CapabilityDocument F))) (word : Str) (ls : List Str)
      → length (lines_after_model fl sorting maps d docs word ls) ≤ length ls
  unfolding lines_after_model
  lines_after_model-le (err e) word ls = omega arith
  lines_after_model-le (ok docs) word ls = after_model-le _ ls

  after_peer-le :
      (p : Option (CapabilityDocument F)) (e : Option Str) (ls : List Str)
      → length (after_peer fl sorting maps d p e ls) ≤ length ls
  unfolding after_peer
  after_peer-le none e ls = omega arith
  after_peer-le (some p) (some e) ls = omega arith
  after_peer-le (some p) none ls = ground (arith, length-without_first-le ls)

  type_model-le :
      (c : Chat fl sorting maps d) (word : Str) (ls : List Str)
      → Rest (type_model fl sorting maps d c word ls) ls
  unfolding type_model
  type_model-le c word ls = lines_after_model-le _ word ls

  type_peer-le :
      (c : Chat fl sorting maps d) (arg : Str) (ls : List Str)
      → Rest (type_peer fl sorting maps d c arg ls) ls
  unfolding type_peer
  type_peer-le c arg ls = after_peer-le _ _ ls

  answered_by-le :
      (select : Chat fl sorting maps d → Str → List Str → Handled fl sorting maps d)
      → ((c : Chat fl sorting maps d) (word : Str) (ls : List Str) → Rest (select c word ls) ls)
      → (c : Chat fl sorting maps d) (ls : List Str)
      → Rest (answered_by fl sorting maps d select c ls) ls
  unfolding answered_by printed
  answered_by-le select h c [] = omega arith
  answered_by-le select h c (l ∷ ls) = elim (Bool-cases (is_empty (trim_space l))) [
    | inl e ↦ rw e (omega arith)
    | inr e ↦ rw e (omega (arith, h c (trim_space l) ls))
  ]

  pick_model-le :
      (c : Chat fl sorting maps d) (docs : Result Str (List (CapabilityDocument F))) (ls : List Str)
      → Rest (pick_typed_model fl sorting maps d c docs ls) ls
  unfolding pick_typed_model
  pick_model-le c (err e) ls = omega arith
  pick_model-le c (ok docs) ls = answered_by-le _ type_model-le c ls

  pick_peer-le :
      (c : Chat fl sorting maps d) (docs : Result Str (List (CapabilityDocument F))) (ls : List Str)
      → Rest (pick_typed_peer fl sorting maps d c docs ls) ls
  unfolding pick_typed_peer
  pick_peer-le c (err e) ls = omega arith
  pick_peer-le c (ok []) ls = omega arith
  pick_peer-le c (ok (p ∷ docs)) ls = answered_by-le _ type_peer-le _ ls

  handle_command-le :
      (c : Chat fl sorting maps d) (ls : List Str) (cmd : Command)
      → Rest (handle_command fl sorting maps d c ls cmd) ls
  unfolding handle_command with_lines
  handle_command-le c ls pick_model = pick_model-le _ _ ls
  handle_command-le c ls pick_peer = pick_peer-le _ _ ls
  handle_command-le c ls (model word) = type_model-le c _ ls
  handle_command-le c ls (use_peer arg) = type_peer-le c arg ls
  handle_command-le c ls status = omega arith
  handle_command-le c ls quit = omega arith
  handle_command-le c ls models = omega arith
  handle_command-le c ls peers = omega arith
  handle_command-le c ls (routing policy) = omega arith
  handle_command-le c ls nothing = omega arith
  handle_command-le c ls menu = omega arith
  handle_command-le c ls help = omega arith
  handle_command-le c ls routing_usage = omega arith
  handle_command-le c ls unknown = omega arith

  handle_line-le :
      (c : Chat fl sorting maps d) (ls : List Str) (text : Str)
      → Rest (handle_line fl sorting maps d c ls text) ls
  unfolding handle_line
  handle_line-le c ls text = ground (arith, handle_command-le c ls (parse_command text))

  next-ends :
      (loop : Chat fl sorting maps d → List Str → Option (Chat fl sorting maps d × Exit))
      (h : Handled fl sorting maps d)
      → ((c : Chat fl sorting maps d)
          → (end : Chat fl sorting maps d × Exit) × (loop c h.0.1 ≡ some end))
      → (end : Chat fl sorting maps d × Exit) × (next_round fl sorting maps d loop h ≡ some end)
  unfolding next_round
  next-ends loop ((c, ls), go_on) k = k c
  next-ends loop ((c, ls), leave) k = ((c, left), refl)
  next-ends loop ((c, ls), failed e) k = ((c, aborted e), refl)

  -- RunREPL ends, whatever the daemon answers: it makes at most one round more than there are lines,
  -- also where its commands read lines of their own.
  pub run_repl_ends :
      (rounds : ℕ) (c : Chat fl sorting maps d) (ls : List Str)
      → length ls < rounds
      → (end : Chat fl sorting maps d × Exit) × (run_repl fl sorting maps d rounds c ls ≡ some end)
  unfolding run_repl
  run_repl_ends zero c ls h = elim h [ ]
  run_repl_ends (suc rounds) c [] h = ((c, end_of_input), refl)
  run_repl_ends (suc rounds) c (l ∷ ls) h =
      next-ends _ (handle_line fl sorting maps d c ls (trim_space l))
        (λ c'. run_repl_ends rounds c' _ (omega (arith, handle_line-le c ls (trim_space l))))

  plain_alike :
      (c : Chat fl sorting maps d) (ls : List Str) (cmd : Command) (first second : Option ℕ)
      → asks_for_none cmd ≡ true
      → handle_command fl sorting maps d c ls cmd
        ≡ with_lines fl sorting maps d ls
            (handle_interactive_command fl sorting maps d c cmd first second)
  unfolding handle_command handle_interactive_command
  plain_alike c ls pick_model first second h = cc
  plain_alike c ls pick_peer first second h = cc
  plain_alike c ls (model word) first second h = cc
  plain_alike c ls (use_peer arg) first second h = cc
  plain_alike c ls status first second h = refl
  plain_alike c ls quit first second h = refl
  plain_alike c ls models first second h = refl
  plain_alike c ls peers first second h = refl
  plain_alike c ls (routing policy) first second h = refl
  plain_alike c ls nothing first second h = refl
  plain_alike c ls menu first second h = refl
  plain_alike c ls help first second h = refl
  plain_alike c ls routing_usage first second h = refl
  plain_alike c ls unknown first second h = refl

  line_alike :
      (c : Chat fl sorting maps d) (ls : List Str) (text : Str) (first second : Option ℕ)
      → asks_for_none (parse_command text) ≡ true
      → handle_line fl sorting maps d c ls text
        ≡ with_lines fl sorting maps d ls (handle_input fl sorting maps d c text first second)
  unfolding handle_line handle_input
  line_alike c ls text first second h = elim (Bool-cases (is_empty text)) [
    | inl e ↦ rw e (unfold with_lines in refl)
    | inr e ↦ elim (Bool-cases (has_prefix text (str "/"))) [
      | inl s ↦ rw (e, s, parse_alike text) (plain_alike c ls (parse_command text) first second h)
      | inr s ↦ rw (e, s) (unfold with_lines in refl)
    ]
  ]

  next-alike :
      (loop : Chat fl sorting maps d → List Str → Option (Chat fl sorting maps d × Exit))
      (loop' : Chat fl sorting maps d → Chat fl sorting maps d × Exit) (ls : List Str)
      (n : Chat fl sorting maps d × Outcome)
      → ((c : Chat fl sorting maps d) → loop c ls ≡ some (loop' c))
      → next_round fl sorting maps d loop (with_lines fl sorting maps d ls n)
        ≡ some (next_input fl sorting maps d loop' n)
  unfolding next_round next_input with_lines
  next-alike loop loop' ls (c, go_on) h = h c
  next-alike loop loop' ls (c, leave) h = refl
  next-alike loop loop' ls (c, failed e) h = refl

  -- RunREPL and RunInteractive do the same for the same lines, if no line is a command that asks for a
  -- choice of a model or a peer, and with rounds enough.
  pub loops_alike :
      (rounds : ℕ) (c : Chat fl sorting maps d) (ls : List Str) (first second : Option ℕ)
      → length ls < rounds
      → All PlainLine ls
      → run_repl fl sorting maps d rounds c ls
        ≡ some (run_interactive fl sorting maps d c (map (λ l. line l first second) ls))
  unfolding run_repl run_interactive
  loops_alike zero c ls first second h p = elim h [ ]
  loops_alike (suc rounds) c [] first second h p = refl
  loops_alike (suc rounds) c (l ∷ ls) first second h p =
      ap (next_round fl sorting maps d (run_repl fl sorting maps d rounds))
        (line_alike c ls (trim_space l) first second p.0)
      ∙ next-alike _ _ ls _ (λ c'. loops_alike rounds c' ls first second (omega arith) p.1)

-- ===== src/Parser/Commands.antt =====
-- `RuleParser::Parse` of src/rule/parse.cpp, and `operator>>` of src/rule/shm.cpp, which calls it.
use dns_wrapper.Common.{
  ℕ, zero, suc, Bool, true, ◌==◌, if◌then◌else◌, List, [], ◌∷◌, ◌++◌, Option, none, some,
}
use dns_wrapper.Rule.Layout.{RuleData}
use dns_wrapper.Rule.Evaluate.{bytes_equal}
use dns_wrapper.Rule.Shm.{clear_rules}
use dns_wrapper.Text.{
  Text, codes, at_least_one_value_required, Try, returned, thrown, broken, unfinished,
}
use dns_wrapper.Parser.{
  Library, Locals, Arguments, ExitCode, no_exit, exit_with_no_error, exit_with_error,
  exit_with_unlock, exit_of, lift, run_add, run_delete, run_policy,
}
use dns_wrapper.Parser.Show.{show, newline}

-- What the commands read and change: the shared block, what is printed, and the files by name.
pub record World : Type 0 where
  pub rules : RuleData
  pub printed : Text
  pub files : Text → Option Text

abbrev pub Step : Type 0
Step = Try ExitCode × World

-- The lines of a text that `std::getline` gives, with the line that is read first.
unfoldable pub lines_from : Text → Text → List Text
lines_from line [] = elim line [ [] ↦ [] | ◌∷◌ c s ↦ (c ∷ s) ∷ [] ]
lines_from line (c ∷ s) =
    let done = lines_from [] s in
    let more = lines_from (line ++ c ∷ []) s in if c == 10 then line ∷ done else more

-- A line without its comment.
unfoldable pub strip_comment : Text → Text
strip_comment [] = []
strip_comment (c ∷ s) = let rest = strip_comment s in if c == b'#' then [] else c ∷ rest

-- A call of the engine: the exit code, and the block that it leaves.
abbrev pub engine : World → Try (Bool × RuleData) → Step
engine w (returned (b, d)) = (returned (exit_of b), record w { rules = d })
engine w (thrown e) = (thrown e, w)
engine w broken = (broken, w)
engine w unfinished = (unfinished, w)

abbrev pub print : World → Try Text → Step
print w (returned t) =
    (returned exit_with_no_error, record w { printed = w.printed ++ t ++ newline })
print w (thrown e) = (thrown e, w)
print w broken = (broken, w)
print w unfinished = (unfinished, w)

abbrev pub with_file : Text → Option Text → (Text → Option Text) → Text → Option Text
with_file name content files n = if bytes_equal n name then content else files n

-- A file that is opened for output is empty until it is written.
abbrev pub save : Text → World → Try Text → Step
save name w (returned t) =
    (returned exit_with_no_error, record w { files = with_file name (some t) w.files })
save name w (thrown e) = (thrown e, record w { files = with_file name (some []) w.files })
save name w broken = (broken, record w { files = with_file name (some []) w.files })
save name w unfinished = (unfinished, record w { files = with_file name (some []) w.files })

-- How the loop of `operator>>` goes on behind a command.
abbrev pub proceed : (World → Try (Unit {0}) × World) → Step → Try (Unit {0}) × World
proceed more (returned exit_with_no_error, w) = more w
proceed more (returned exit_with_error, w) = (returned tt, w)
proceed more (returned no_exit, w) = (returned tt, w)
proceed more (returned exit_with_unlock, w) = (returned tt, w)
proceed more (thrown e, w) = (thrown e, w)
proceed more (broken, w) = (broken, w)
proceed more (unfinished, w) = (unfinished, w)

module _ (library : Library) where
  -- The loop of `operator>>`, with `Parse` as an argument. It breaks off where a command fails.
  unfoldable pub read_lines :
      (Arguments → World → Step) → List Text → World → Try (Unit {0}) × World
  unfolding strip_comment
  read_lines parse [] w = (returned tt, w)
  read_lines parse (line ∷ lines) w = elim (strip_comment line) [
    | [] ↦ read_lines parse lines w
    | ◌∷◌ c s ↦ elim (library.arguments (codes "rules " ++ c ∷ s)) [
      | thrown e ↦ (thrown e, w)
      | broken ↦ (broken, w)
      | unfinished ↦ (unfinished, w)
      | returned a ↦ proceed (λ w'. read_lines parse lines w') (parse a w)
    ]
  ]

  -- `load` behind the opening of the file: its result is success, whatever the lines did.
  abbrev pub loaded : Try (Unit {0}) × World → Step
  loaded (returned u, w) = (returned exit_with_no_error, w)
  loaded (thrown e, w) = (thrown e, w)
  loaded (broken, w) = (broken, w)
  loaded (unfinished, w) = (unfinished, w)

  -- The cases of `Parse` behind the values of their options; `vm` of the caller has the help option
  -- or not.
  abbrev pub unless_help : {A : Type 0} → Bool → World → (A → Step) → Try A → Step
  unless_help help w f (returned v) = if help then (returned exit_with_no_error, w) else f v
  unless_help help w f (thrown e) = (thrown e, w)
  unless_help help w f broken = (broken, w)
  unless_help help w f unfinished = (unfinished, w)

  unfoldable pub run_save : Option Text → World → Step
  unfolding show
  run_save none w = (thrown (at_least_one_value_required (codes "file")), w)
  run_save (some name) w =
      if library.can_open name
      then save name w (lift (show library w.rules))
      else (returned exit_with_error, w)

  unfoldable pub run_load : (Arguments → World → Step) → Option Text → World → Step
  unfolding read_lines lines_from
  run_load parse none w = (thrown (at_least_one_value_required (codes "file")), w)
  run_load parse (some name) w = elim (w.files name) [
    | none ↦ (returned exit_with_error, w)
    | some content ↦ loaded (read_lines parse (lines_from [] content) w)
  ]

  -- The chain of tests on the command, with `Parse` as an argument for the lines of a file. Help
  -- texts are not part of what is printed.
  unfoldable pub run_command : (Arguments → World → Step) → Locals → Arguments → Text → World → Step
  unfolding run_add run_delete run_policy run_save run_load
  run_command parse l a cmd w =
      if bytes_equal cmd (codes "add")
      then unless_help a.help w (λ v. engine w (run_add library l v w.rules)) a.add
      else if bytes_equal cmd (codes "delete")
      then unless_help a.help w (λ v. engine w (run_delete library v w.rules)) a.delete
      else if bytes_equal cmd (codes "clear")
      then unless_help a.help w (λ (u : Unit {0}). engine w (returned (true, clear_rules w.rules)))
          (returned tt)
      else if bytes_equal cmd (codes "list")
      then unless_help a.help w (λ (u : Unit {0}). print w (lift (show library w.rules)))
          (returned tt)
      else if bytes_equal cmd (codes "policy")
      then unless_help a.help w (λ v. engine w (run_policy library l v w.rules)) a.policy
      else if bytes_equal cmd (codes "load")
      then unless_help a.help w (λ v. run_load parse v w) a.file
      else if bytes_equal cmd (codes "save")
      then unless_help a.help w (λ v. run_save v w) a.file
      else (returned exit_with_error, w)

  -- `Parse`: the fuel bounds how deep files load files. Without a command it does nothing.
  unfoldable pub parse : ℕ → Locals → Arguments → World → Step
  unfolding run_command
  parse zero l a w = (unfinished, w)
  parse (suc fuel) l a w = elim a.command [
    | none ↦ (returned exit_with_no_error, w)
    | some cmd ↦ run_command (λ a' w'. parse fuel l a' w') l a cmd w
  ]

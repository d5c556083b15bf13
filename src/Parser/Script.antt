-- ===== src/Parser/Script.antt =====
-- A file of commands, as `operator>>` of src/rule/shm.cpp reads it.
use dns_wrapper.Common.{
  ℕ, suc, ◌+◌, ◌≤◌, ◌≡◌, refl, sym, ap, ◌∙◌, subst, true, false, map, append_assoc, append-nil,
  arith, length, length-append, ltb, Bool-cases, inl, inr, List, [], ◌∷◌, ◌++◌, some,
}
use dns_wrapper.Rule.Layout.{Policy, RuleData, data_size}
use dns_wrapper.Rule.Layout.Image.{StoredRule, image, images, length-images-append}
use dns_wrapper.Rule.Evaluate.{bytes_equal}
use dns_wrapper.Rule.Shm.History.{Command, append, policy, IsCommand, listed, Rules, Represents}
use dns_wrapper.Text.{Text, codes, returned}
use dns_wrapper.Parser.{Library, Locals, Arguments, exit_with_no_error, exit_of}
use dns_wrapper.Parser.Commands.{
  World, Step, strip_comment, lines_from, read_lines, loaded, unless_help, run_load, run_command,
  parse,
}
use dns_wrapper.Parser.Describe.{Describes, parse_lem}

-- Edits one after the other, up to the first that is refused.
unfoldable pub listed_until : List Command → Rules → Rules
listed_until [] r = r
listed_until (c ∷ cs) r =
    let (b, r') = listed c r in let rest = listed_until cs r' in elim b [ true ↦ rest | false ↦ r' ]

listed_until-accepted :
    (c : Command) (cs : List Command) (r r' : Rules)
    → listed c r ≡ (true, r')
    → listed_until (c ∷ cs) r ≡ listed_until cs r'
unfolding listed_until
listed_until-accepted c cs r r' accepted =
    rw (listed_until, accepted) (ap (λ z. listed_until cs z.1) accepted)

-- Rules that fit the block are appended one behind the other.
pub listed_until-append :
    (ss before : List StoredRule) (p q : Policy)
    → length (images (before ++ ss)) ≤ data_size
    → listed_until (map append ss ++ policy p ∷ []) (record { policy = q; rules = before })
      ≡ record { policy = p; rules = before ++ ss }
unfolding listed_until listed
listed_until-append [] before p q room =
    ap (λ rs. record { policy = p; rules = rs }) (sym (append-nil before))
listed_until-append (s ∷ ss) before p q room =
    let whole = length-images-append before (s ∷ ss) in
    let front = length-append (image s) (images ss) in
    let fits : ltb data_size (length (images before) + length (image s)) ≡ false = ground arith in
    let reassociated = append_assoc before (s ∷ []) ss in
    let step : listed (append s) (record { policy = q; rules = before })
        ≡ (true, record { policy = q; rules = before ++ s ∷ [] }) =
      rw fits refl in
    listed_until-accepted (append s) (map append ss ++ policy p ∷ []) _ _ step
    ∙ listed_until-append ss (before ++ s ∷ []) p q
        (subst (λ rs. length (images rs) ≤ data_size) (sym reassociated) room)
    ∙ ap (λ rs. record { policy = p; rules = rs }) reassociated

module _ (library : Library) (l : Locals) where
  -- Lines that are blank but for a comment, or describe an edit.
  pub data Script : List Text → List Command → Type 0 where
    done : Script [] []
    blank :
        {line : Text} {lines : List Text} {cs : List Command}
        → strip_comment line ≡ []
        → Script lines cs
        → Script (line ∷ lines) cs
    edit :
        {line : Text} {lines : List Text} {cs : List Command} (x : ℕ) (s : Text) (a : Arguments)
        (c : Command)
        → strip_comment line ≡ x ∷ s
        → library.arguments (codes "rules " ++ x ∷ s) ≡ returned a
        → Describes library l a c
        → IsCommand c
        → Script lines cs
        → Script (line ∷ lines) (c ∷ cs)

  abbrev pub nested : ℕ → Arguments → World → Step
  nested fuel a w = parse library fuel l a w

  -- What the loop leaves: the list of the edits, up to the first that is refused.
  pub read_lines_lem :
      {lines : List Text} {cs : List Command} (fuel : ℕ) (w : World) (r : Rules)
      → Script lines cs
      → Represents w.rules r
      → (d : RuleData) × (read_lines library (nested (suc fuel)) lines w
          ≡ (returned tt, record w { rules = d }))
        × Represents d (listed_until cs r)
  unfolding read_lines listed_until
  read_lines_lem fuel w r done rep = (w.rules, refl, rep)
  read_lines_lem fuel w r (blank nothing rest) rep =
      let (d, runs, rep') = read_lines_lem fuel w r rest rep in
      (d, rw (read_lines, nothing) runs, rep')
  read_lines_lem fuel w r (edit {line} {lines} {cs} x s a c text arguments describes good rest)
        rep =
      let (d, parses, rep') = parse_lem library l fuel a c w r good describes rep in
      elim (Bool-cases (listed c r).0) [
        | inl accepted ↦
            let (d', runs, rep'') =
              read_lines_lem fuel (record w { rules = d }) (listed c r).1 rest rep' in
            (
              d',
              rw (read_lines, text) (rw (arguments, parses) (rw (exit_of, accepted) runs)),
              rw (listed_until, accepted) rep'',
            )
        | inr refused ↦ (
          d,
          rw (read_lines, text) (rw (arguments, parses) (rw (exit_of, refused) refl)),
          rw (listed_until, refused) rep',
        )
      ]

  -- Loading a file whose lines are blank, or describe edits of rules with the parts their
  -- types ask for, onto a block that holds a list: the block then holds the list after these
  -- edits up to the first one that is refused, and the exit code is that of success also if
  -- one is refused.
  pub parse-load :
      (fuel : ℕ) (a : Arguments) (name content : Text) (cs : List Command) (w : World) (r : Rules)
      → a.command ≡ some (codes "load")
      → a.help ≡ false
      → a.file ≡ returned (some name)
      → w.files name ≡ some content
      → Script (lines_from [] content) cs
      → Represents w.rules r
      → (d : RuleData) × (parse library (suc (suc fuel)) l a w
          ≡ (returned exit_with_no_error, record w { rules = d }))
        × Represents d (listed_until cs r)
  unfolding parse run_command bytes_equal run_load
  parse-load fuel a name content cs w r command help file opens script rep =
      let (d, runs, rep') = read_lines_lem fuel w r script rep in
      (
        d,
        rw (parse, command)
            (rw (help, file) (rw (unless_help, run_load, opens) (ap (loaded library) runs))),
        rep',
      )

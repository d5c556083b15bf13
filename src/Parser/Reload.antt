-- ===== src/Parser/Reload.antt =====
-- What `save` writes, as `load` reads it (src/rule/parse.cpp, src/rule/shm.cpp).
use dns_wrapper.Common.{List, [], ◌∷◌, ◌++◌, map, All}
use dns_wrapper.Rule.Layout.Image.{StoredRule}
use dns_wrapper.Rule.Shm.History.{Rules}
use dns_wrapper.Text.{Text, codes}
use dns_wrapper.Parser.{Library}
use dns_wrapper.Parser.Commands.{lines_from, strip_comment}
use dns_wrapper.Parser.Saved.{IsLine, HasNoComment, rule_line, rule_lines, policy_line}

module _ (library : Library) where
  -- The texts of a policy and rules have no end of a line and no comment in them.
  pub record IsPlain (r : Rules) : Type 0 where
    pub rule_texts :
        All (λ s. IsLine (rule_line library s) × HasNoComment (rule_line library s)) r.rules
    pub policy_text : IsLine (policy_line library r.policy)
    pub policy_clean : HasNoComment (policy_line library r.policy)

  -- The commands that the lines of a text are, without their comments.
  abbrev pub commands_of : Text → List Text
  commands_of t = map strip_comment (lines_from [] t)

  -- The command of a rule, with the blank in front of its comment.
  abbrev pub rule_command : StoredRule → Text
  rule_command s = rule_line library s ++ codes " "

  -- The text of a policy and rules.
  abbrev saved_text : Rules → Text
  saved_text r =
      codes "# start"
      ++ (10
          ∷ rule_lines library 0 r.rules (policy_line library r.policy ++ (10 ∷ codes "# end\n")))

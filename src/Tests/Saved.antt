-- ===== src/Tests/Saved.antt =====
-- Saving two rules and a policy.
use dns_wrapper.Common.{ℕ, Bool, true, false, ◌==◌, [], ◌∷◌, none, some, if◌then◌else◌}
use dns_wrapper.Rule.Layout.Image.{StoredRule, by_eth, images}
use dns_wrapper.Common.Memory.{store}
use dns_wrapper.Net.Buffer.{EthAddress}
use dns_wrapper.Rule.Evaluate.{bytes_equal}
use dns_wrapper.Rule.Shm.History.{Rules}
use dns_wrapper.Text.{Text, codes, returned}
use dns_wrapper.Parser.{Library, Arguments}
use dns_wrapper.Parser.Commands.{World}
use dns_wrapper.Parser.Saved
use dns_wrapper.Tests.Rules.{client_ip, ip_rule, redirecting}
use dns_wrapper.Tests.Commands.{bare, world}

abbrev saved_mac : EthAddress
saved_mac = 2 ∷ 0 ∷ 0 ∷ 0 ∷ 0 ∷ 31 ∷ []

abbrev saved_rule : StoredRule
saved_rule = record { key = by_eth saved_mac; target = none }

abbrev saved_rules : Rules
saved_rules = record { policy = redirecting; rules = saved_rule ∷ ip_rule ∷ [] }

abbrev saved_world : World
saved_world = record world {
  rules = record {
    policy = redirecting;
    size = 2;
    bytes = store (λ i. 0) 0 (images saved_rules.rules);
  };
}

-- The address conversions, for the addresses of the rules.
abbrev reader : Library
reader = record {
  inet_pton = λ v4 a. none;
  inet_ntop = λ v4 ip.
      if v4
      then some (if bytes_equal ip client_ip then codes "10.0.0.7" else codes "10.0.0.1")
      else some (codes "fe80::1");
  arguments = λ s. returned (bare (codes "list"));
  can_open = λ n. true;
}

-- Whether a character stands in a text.
abbrev has : ℕ → Text → Bool
has c [] = false
has c (x ∷ t) = if x == c then true else has c t

abbrev with_name : Text → Arguments
with_name cmd = record (bare cmd) { file = returned (some (codes "f")) }

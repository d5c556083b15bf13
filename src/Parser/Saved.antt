-- ===== src/Parser/Saved.antt =====
-- The text of the policy and of the rules, and how it falls into lines (src/rule/parse.cpp, src/rule/shm.cpp).
use dns_wrapper.Common.{
  ℕ, zero, suc, ◌+◌, ◌/◌, ◌≤◌, ◌≡◌, refl, sym, ap, ◌∙◌, Bool, if◌then◌else◌, true, false, ◌==◌, ltb,
  Bool-cases, inl, inr, List, [], ◌∷◌, ◌++◌, append_assoc, append-nil, Option, none, some, ok,
  arith, length, length-append, All, All-append,
}
use dns_wrapper.Common.Memory.{Memory, Holds, Holds-append}
use dns_wrapper.Rule.Layout.{IpAddressData, Policy, data_size, dns, redirect}
use dns_wrapper.Net.Buffer.{IpAddress}
use dns_wrapper.Rule.Layout.Image.{
  Key, by_ip, by_eth, by_both, StoredRule, IsStored, to_rule, image, images, next_rule-Holds,
}
use dns_wrapper.Text.{Text, codes, eth_address_to_string}
use dns_wrapper.Parser.{Library}
use dns_wrapper.Parser.Show.{
  digits, decimal, newline, show_param, ip_address_to_string, show_rule, show_rules, show_policy,
}
use dns_wrapper.Parser.Commands.{lines_from, strip_comment}

-- A text without a line's end, and one without a comment's start.
abbrev pub IsLine : Text → Type 0
IsLine = All (λ c. (c == 10) ≡ false)

abbrev pub HasNoComment : Text → Type 0
HasNoComment = All (λ c. (c == b'#') ≡ false)

pub lines_from-line :
    (token line rest : Text)
    → IsLine line
    → lines_from token (line ++ 10 ∷ rest) ≡ (token ++ line) ∷ lines_from [] rest
unfolding lines_from
lines_from-line token [] rest h = ap (λ t. t ∷ lines_from [] rest) (sym (append-nil token))
lines_from-line token (c ∷ line) rest (h, hs) = rw h (
    lines_from-line (token ++ c ∷ []) line rest hs
    ∙ ap (λ t. t ∷ lines_from [] rest) (append_assoc token (c ∷ []) line))

pub strip_comment-append :
    (line rest : Text) → HasNoComment line → strip_comment (line ++ b'#' ∷ rest) ≡ line
unfolding strip_comment
strip_comment-append [] rest h = refl
strip_comment-append (c ∷ line) rest (h, hs) = rw (h, strip_comment-append line rest hs) refl

pub strip_comment-none : (line : Text) → HasNoComment line → strip_comment line ≡ line
unfolding strip_comment
strip_comment-none [] h = refl
strip_comment-none (c ∷ line) (h, hs) = rw (h, strip_comment-none line hs) refl

pub digits-IsLine : (k n : ℕ) → IsLine (digits k n)
unfolding digits
digits-IsLine zero n = tt
digits-IsLine (suc k) n = elim (Bool-cases (ltb n 10)) [
  | inl small ↦ rw small (ground arith, tt)
  | inr large ↦
      rw large (All-append _ (digits k (n / 10)) _ (digits-IsLine k (n / 10)) (ground arith, tt))
]

module _ (library : Library) where
  -- The text of an address, which is empty if the system refuses it.
  abbrev pub ntop : Bool → IpAddress → Text → Text
  ntop v4 ip default = elim (library.inet_ntop v4 ip) [ none ↦ default | some text ↦ text ]

  -- What a rule prints, up to its comment.
  abbrev ip_text : IpAddressData → Text
  ip_text d = ntop d.ipv4 d.ipaddr []

  abbrev ip_key_text : Key → Text
  ip_key_text (by_ip d) = codes "--ipaddr " ++ ip_text d
  ip_key_text (by_eth e) = []
  ip_key_text (by_both d e) = codes "--ipaddr " ++ ip_text d

  abbrev eth_key_text : Key → Text
  eth_key_text (by_ip d) = []
  eth_key_text (by_eth e) = codes "--macaddr " ++ eth_address_to_string e
  eth_key_text (by_both d e) = codes " --macaddr " ++ eth_address_to_string e

  abbrev action_word : Option IpAddressData → Text
  action_word none = codes "dns"
  action_word (some t) = codes "redirect"

  abbrev target_text : Option IpAddressData → Text
  target_text none = []
  target_text (some t) = codes " --target " ++ ip_text t

  unfoldable pub rule_line : StoredRule → Text
  rule_line s =
      codes "add "
      ++ ip_key_text s.key
      ++ eth_key_text s.key
      ++ codes " --action "
      ++ action_word s.target
      ++ target_text s.target

  show_rule-to_rule : (s : StoredRule) → show_rule library (to_rule s) ≡ ok (rule_line s)
  unfolding show_rule rule_line show_param ip_address_to_string
  show_rule-to_rule s = parts_lem s.key s.target
    where
      parts_lem :
          (k : Key) (t : Option IpAddressData)
          → show_rule library (to_rule (record { key = k; target = t }))
            ≡ ok (rule_line (record { key = k; target = t }))
      parts_lem (by_ip d) none = refl
      parts_lem (by_ip d) (some t) = refl
      parts_lem (by_eth e) none = refl
      parts_lem (by_eth e) (some t) = refl
      parts_lem (by_both d e) none = refl
      parts_lem (by_both d e) (some t) = refl

  -- What a policy prints; the second address stands as the first if the system refuses it.
  unfoldable pub policy_line : Policy → Text
  policy_line p =
      if p.action == redirect
      then codes "policy  --action  redirect --target4 "
        ++ ntop true p.target_ipv4 []
        ++ codes " --target6 "
        ++ ntop false p.target_ipv6 (ntop true p.target_ipv4 [])
      else codes "policy  --action  " ++ (if p.action == dns then codes "dns" else codes "redirect")

  pub show_policy_lem : (p : Policy) → show_policy library p ≡ policy_line p
  unfolding show_policy policy_line show_param ip_address_to_string
  show_policy_lem p = elim (Bool-cases (p.action == redirect)) [
    | inl redirects ↦
        let other : (p.action == dns) ≡ false = ground (arith, redirects) in
        rw (redirects, other) (simp (append_assoc) refl)
    | inr resolves ↦ rw resolves (append-nil _)
  ]

  -- The lines of the rules, and the text behind them.
  abbrev pub rule_lines : ℕ → List StoredRule → Text → Text
  rule_lines i [] rest = rest
  rule_lines i (s ∷ ss) rest =
      (rule_line s ++ (codes " # " ++ decimal i)) ++ (10 ∷ rule_lines (suc i) ss rest)

  pub show_rules_lem :
      (m : Memory) (i p : ℕ) (ss : List StoredRule)
      → All IsStored ss
      → p + length (images ss) ≤ data_size
      → Holds m p (images ss)
      → (x : Text) × (show_rules library m (length ss) i p ≡ ok x)
        × ((rest : Text) → x ++ rest ≡ rule_lines i ss rest)
  unfolding show_rules
  show_rules_lem m i p [] good room holds = ([], refl, λ rest. refl)
  show_rules_lem m i p (s ∷ ss) (good, goods) room holds =
      let (here, behind) =
        Holds-append m p (p + length (image s)) (image s) (images ss) refl holds in
      let total = length-append (image s) (images ss) in
      let first = next_rule-Holds m p s good (omega arith) here in
      let (x, rest, same) =
        show_rules_lem m (suc i) (p + length (image s)) ss goods (omega arith) behind in
      (
        rule_line s ++ codes " # " ++ decimal i ++ newline ++ x,
        rw (first, show_rule-to_rule s, rest) refl,
        λ more.
            simp (append_assoc)
              (ap (λ t. rule_line s ++ (codes " # " ++ (decimal i ++ (10 ∷ t)))) (same more)),
      )

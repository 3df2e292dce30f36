-- ===== src/Firewalls/Open.antt =====
-- `countOpen` against what it counts.
use digitalocean_exporter.Base.{
  suc, ◌≤◌, String, string_eq, Bool, true, false, ◌||◌, Option, none, some, List, [], ◌∷◌, keep,
  length, contains, length-keep-le, ◌≡◌, refl, sym, ◌∙◌, ap, arith, Bool-cases, inl, inr,
}
use digitalocean_exporter.Firewalls.{
  ApiFirewall, anywhere_v4, anywhere_v6, reaches_anyone, count_open, new_firewall,
}

-- An inbound rule whose sources have one of the two addresses that stand for everyone.
abbrev pub is_open : Option (List String) → Bool
is_open none = false
is_open (some addrs) = contains addrs anywhere_v4 || contains addrs anywhere_v6

reaches_anyone-contains :
    (addrs : List String)
    → reaches_anyone addrs ≡ (contains addrs anywhere_v4 || contains addrs anywhere_v6)
unfolding reaches_anyone
reaches_anyone-contains [] = refl
reaches_anyone-contains (a ∷ addrs) = ground (arith, reaches_anyone-contains addrs)

count_open-keep :
    (rules : List (Option (List String))) → count_open rules ≡ length (keep is_open rules)
unfolding count_open
count_open-keep [] = refl
count_open-keep (none ∷ rules) = count_open-keep rules
count_open-keep (some addrs ∷ rules) = elim (Bool-cases (reaches_anyone addrs)) [
  | inl t ↦
      let yes_open : is_open (some addrs) ≡ true = sym (reaches_anyone-contains addrs) ∙ t in
      rw (t, yes_open) (ap suc (count_open-keep rules))
  | inr f ↦
      let no_open : is_open (some addrs) ≡ false = sym (reaches_anyone-contains addrs) ∙ f in
      rw (f, no_open) (count_open-keep rules)
]

-- The open rules of a firewall are its inbound rules that admit everyone over either version of the
-- protocol, each of them counted once: never more than its inbound rules.
pub new_firewall-open :
    (f : ApiFirewall)
    → ((new_firewall f).open_rules ≡ length (keep is_open f.inbound_rules))
      × ((new_firewall f).open_rules ≤ (new_firewall f).inbound)
unfolding new_firewall
new_firewall-open f =
    let e = count_open-keep f.inbound_rules in
    (e, omega (arith, e, length-keep-le is_open f.inbound_rules))

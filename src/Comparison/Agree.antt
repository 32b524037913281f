-- ===== src/Comparison/Agree.antt =====
-- Two readings of one configuration, from states that are related.

use ns3_sim.Prelude.{
  ◌≡◌, refl, sym, ◌∙◌, inl, inr, ◌&&◌, none, some, List, [], ◌∷◌, ◌==◌, nat_eq, length, Bool-cases,
  Option-cases,
}
use ns3_sim.Python.Outcome.{Outcome, ok, raise, index, ◌>>=◌}
use ns3_sim.Python.Nested.{insert_in}
use ns3_sim.Python.Text.{Text, text_eq, codes, split, drop_last, non_empty}
use ns3_sim.Comparison.{
  Parse, is_interface, iface_part, open_interface, set_cost, config_parts, without_tabs,
  read_config_line, read_config,
}

-- Two runs that end in the same exception, or in states that are related.
abbrev pub Agree : (Parse → Parse → Type 0) → Outcome Parse → Outcome Parse → Type 0
Agree R (ok p) (ok q) = R p q
Agree R (raise e) (raise f) = e ≡ f
Agree R _ _ = ⊥

module _ (node : Text) (R : Parse → Parse → Type 0)
    (same_last : (p q : Parse) → R p q → p.last ≡ q.last)
    (opened : (p q : Parse) (iface : Text)
      → R p q
      → R (record p { last = some iface }) (record q { last = some iface }))
    (costed : (p q : Parse) (iface cost : Text)
      → R p q
      → R
          (record { costs = insert_in node iface cost p.costs; last = none })
          (record { costs = insert_in node iface cost q.costs; last = none })) where
  after_same :
      {A : Type 0} (m : Outcome A) (f g : A → Outcome Parse)
      → ((a : A) → Agree R (f a) (g a))
      → Agree R (m >>= f) (m >>= g)
  after_same (ok a) f g h = h a
  after_same (raise e) f g h = refl

  after_agreed :
      (m n : Outcome Parse) (f g : Parse → Outcome Parse)
      → Agree R m n
      → ((p q : Parse) → R p q → Agree R (f p) (g q))
      → Agree R (m >>= f) (n >>= g)
  after_agreed (ok p) (ok q) f g h k = k p q h
  after_agreed (raise e) (raise e') f g h k = h
  after_agreed (ok p) (raise e) f g h k = absurd h
  after_agreed (raise e) (ok q) f g h k = absurd h

  open_interface-Agree :
      (p q : Parse) (iface : Text)
      → R p q
      → Agree R (open_interface p iface) (open_interface q iface)
  unfolding open_interface
  open_interface-Agree p q iface r = elim (Option-cases p.last) [
    | inl e ↦
        let e' : q.last ≡ none = sym (same_last p q r) ∙ e in
        rw (e, open_interface) (rw (e', open_interface) (opened p q iface r))
    | inr (before, e) ↦
        let e' : q.last ≡ some before = sym (same_last p q r) ∙ e in
        rw (e, open_interface) (rw (e', open_interface) refl)
  ]

  set_cost-Agree :
      (p q : Parse) (cost : Text) → R p q → Agree R (set_cost node p cost) (set_cost node q cost)
  unfolding set_cost
  set_cost-Agree p q cost r = elim (Option-cases p.last) [
    | inl e ↦
        let e' : q.last ≡ none = sym (same_last p q r) ∙ e in
        rw (e, set_cost) (rw (e', set_cost) refl)
    | inr (iface, e) ↦
        let e' : q.last ≡ some iface = sym (same_last p q r) ∙ e in
        rw (e, set_cost) (rw (e', set_cost) (costed p q iface cost r))
  ]

  config_parts-Agree :
      (p q : Parse) (parts : List Text)
      → R p q
      → Agree R (config_parts node p parts) (config_parts node q parts)
  unfolding config_parts
  config_parts-Agree p q parts r = after_same (index parts 0) _ _ λ first.
      after_same (is_interface first parts) _ _ λ interface. elim (Bool-cases interface) [
        | inl here ↦ rw here (
            after_same (index parts 1) _ _
              (λ second. open_interface-Agree p q (iface_part second) r))
        | inr other ↦ rw other (elim (Bool-cases (first == codes "cost" && length parts == 2)) [
          | inl cost ↦
              rw cost
                (after_same (index parts 1) _ _ (λ second. set_cost-Agree p q (drop_last second) r))
          | inr else_line ↦ rw else_line r
        ])
      ]

  pub read_config-Agree :
      (p q : Parse) (lines : List Text)
      → R p q
      → Agree R (read_config node p lines) (read_config node q lines)
  unfolding read_config read_config_line
  read_config-Agree p q [] r = r
  read_config-Agree p q ([] ∷ lines) r = read_config-Agree p q lines r
  read_config-Agree p q ((c ∷ line) ∷ lines) r =
      after_agreed (config_parts node p (non_empty (split 32 (without_tabs (c ∷ line)))))
        (config_parts node q (non_empty (split 32 (without_tabs (c ∷ line))))) _ _
        (config_parts-Agree p q (non_empty (split 32 (without_tabs (c ∷ line)))) r)
        (λ p' q' r'. read_config-Agree p' q' lines r')

-- ===== src/Explore/Adds.antt =====
-- What a call appends to the list of items.
use ns3_sim.Prelude.{
  ◌≡◌, ◌⊎◌, inl, inr, ◌↔◌, List, [], ◌∷◌, ◌++◌, In, In-append, In-append_left, In-append_right,
  arith,
}
use ns3_sim.Python.Outcome.{ok}
use ns3_sim.Python.Text.{text_eq}
use ns3_sim.Explore.{Item}

pub In-snoc :
    (item last : Item) (xs : List Item) → In item (xs ++ last ∷ []) ↔ (In item xs ⊎ (item ≡ last))
In-snoc item last xs = (
  λ h. elim (In-append item xs (last ∷ []) h) [
    | inl p ↦ inl p
    | inr q ↦ elim q [ inl e ↦ inr e | inr n ↦ absurd n ]
  ],
  λ h. elim h [
    | inl p ↦ In-append_left item xs (last ∷ []) p
    | inr e ↦ In-append_right item xs (last ∷ []) (inl e)
  ],
)

pub ok_lem {ℓ} : {A : Type ℓ} {a b : A} → ok a ≡ ok b → a ≡ b
ok_lem h = cc

-- `out` holds the items of `c` and those of which `P` holds.
pub record Adds (c out : List Item) (P : Item → Type 0) : Type 0 where
  pub at : (item : Item) → In item out ↔ (In item c ⊎ P item)

pub Adds-none :
    {c out : List Item} {P : Item → Type 0} → out ≡ c → ((item : Item) → ¬ P item) → Adds c out P
Adds-none e h = record {
  at = λ item. (λ m. inl (rw (← e) m), λ m. elim m [ inl p ↦ rw e p | inr q ↦ absurd (h item q) ]);
}

pub Adds-one :
    {c out : List Item} (last : Item) {P : Item → Type 0}
    → out ≡ c ++ last ∷ []
    → ((item : Item) → P item ↔ (item ≡ last))
    → Adds c out P
Adds-one {c} last e h = record {
  at = λ item. (
    λ m. elim ((In-snoc item last c).0 (rw e at m)) [ inl p ↦ inl p | inr q ↦ inr ((h item).1 q) ],
    λ m. rw e ((In-snoc item last c).1 (elim m [ inl p ↦ inl p | inr q ↦ inr ((h item).0 q) ])),
  );
}

pub Adds-trans :
    {c m out : List Item} {P R S : Item → Type 0}
    → Adds c m P
    → Adds m out R
    → ((item : Item) → S item ↔ (P item ⊎ R item))
    → Adds c out S
Adds-trans p r s = record { at = λ item. ground (arith, p.at item, r.at item, s item) }

pub Adds-iff :
    {c out : List Item} {P R : Item → Type 0}
    → Adds c out P
    → ((item : Item) → P item ↔ R item)
    → Adds c out R
Adds-iff p h = record { at = λ item. ground (arith, p.at item, h item) }

-- ===== src/Comparison/Cache.antt =====
-- The costs that were read before give what reading the configuration again would give.
use mathlib.Core.Path.{subst}
use ns3_sim.Prelude.{
  ◌≡◌, refl, sym, ap, ◌∙◌, ◌⊎◌, inl, inr, false, ◌&&◌, Option, none, some, List, [], ◌==◌,
  Bool-cases, Option-cases,
}
use ns3_sim.Python.Outcome.{Outcome, ok, raise, key_error, or_raise, ◌>>=◌}
use ns3_sim.Python.Dict.{lookup}
use ns3_sim.Python.Nested.{lookup_in, insert_in, lookup_in-insert_in}
use ns3_sim.Python.Text.{Text, text_eq, split}
use ns3_sim.Comparison.{Costs, Parse, Configs, read_config, load_metric, get_metric}
use ns3_sim.Comparison.Agree.{Agree, read_config-Agree}

-- A reading that starts with costs, and one that starts with none: at interface `j` they have the same
-- cost, or the configuration has not set one yet.
pub record Follows (node j : Text) (before : Option Text) (p q : Parse) : Type 0 where
  pub same_last : p.last ≡ q.last
  pub same_cost :
      (lookup_in node j p.costs ≡ lookup_in node j q.costs)
      ⊎ ((lookup_in node j q.costs ≡ none) × (lookup_in node j p.costs ≡ before))

Follows-insert_in :
    (node j : Text) (before : Option Text) (p q : Parse) (iface cost : Text)
    → Follows node j before p q
    → Follows node j before
        (record { costs = insert_in node iface cost p.costs; last = none })
        (record { costs = insert_in node iface cost q.costs; last = none })
Follows-insert_in node j before p q iface cost r =
    let at_p = lookup_in-insert_in node node iface j cost p.costs in
    let at_q = lookup_in-insert_in node node iface j cost q.costs in
    record {
      same_last = refl;
      same_cost = elim (Bool-cases (node == node && j == iface)) [
        | inl here ↦ inl ((rw here at at_p) ∙ sym (rw here at at_q))
        | inr other ↦ elim r.same_cost [
          | inl e ↦ inl ((rw other at at_p) ∙ e ∙ sym (rw other at at_q))
          | inr (no_cost, e) ↦ inr ((rw other at at_q) ∙ no_cost, (rw other at at_p) ∙ e)
        ]
      ];
    }

pub read_config-Follows :
    (node j : Text) (costs : Costs) (lines : List Text)
    → Agree
        (Follows node j (lookup_in node j costs))
        (read_config node (record { costs = costs; last = none }) lines)
        (read_config node (record { costs = []; last = none }) lines)
read_config-Follows node j costs lines =
    read_config-Agree node (Follows node j (lookup_in node j costs)) (λ p q r. r.same_last)
      (λ p q iface r. record { same_last = refl; same_cost = r.same_cost })
      (λ p q iface cost r. Follows-insert_in node j (lookup_in node j costs) p q iface cost r)
      (record { costs = costs; last = none }) (record { costs = []; last = none }) lines
      (record { same_last = refl; same_cost = inr (unfold lookup in refl, refl) })

-- A reading keeps the costs of the other nodes.
pub record Keeps (i j : Text) (before : Option Text) (p q : Parse) : Type 0 where
  pub same_last : p.last ≡ q.last
  pub kept : lookup_in i j p.costs ≡ before

pub read_config-Keeps :
    (node i j : Text) (costs : Costs) (lines : List Text)
    → (i == node) ≡ false
    → Agree
        (Keeps i j (lookup_in i j costs))
        (read_config node (record { costs = costs; last = none }) lines)
        (read_config node (record { costs = costs; last = none }) lines)
read_config-Keeps node i j costs lines other =
    read_config-Agree node (Keeps i j (lookup_in i j costs)) (λ p q r. r.same_last)
      (λ p q iface r. record { same_last = refl; kept = r.kept })
      (λ p q iface cost r. record {
        same_last = refl;
        kept = (rw other at (lookup_in-insert_in node i iface j cost p.costs)) ∙ r.kept;
      })
      (record { costs = costs; last = none }) (record { costs = costs; last = none }) lines
      (record { same_last = refl; kept = refl })

-- Each cost that is there is the one that reading its node's configuration gives.
abbrev pub IsCache : Configs → Costs → Type 0
IsCache files costs =
    (node iface metric : Text)
    → lookup_in node iface costs ≡ some metric
    → (own : Costs) × (load_metric files [] node iface ≡ ok (own, metric))

-- The metric without the costs.
abbrev pub metric_of : Outcome (Costs × Text) → Outcome Text
metric_of (ok (costs, metric)) = ok metric
metric_of (raise e) = raise e

abbrev pub finish : Text → Text → Outcome Parse → Outcome (Costs × Text)
finish node iface m = do
  p ← m
  metric ← or_raise key_error (lookup_in node iface p.costs)
  ok (p.costs, metric)

pub load_metric-finish :
    (files : Configs) (costs : Costs) (node iface config : Text)
    → files node ≡ some config
    → load_metric files costs node iface
      ≡ finish node iface
          (read_config node (record { costs = costs; last = none }) (split 10 config))
unfolding load_metric
load_metric-finish files costs node iface config e = rw e refl

metric_of-Follows :
    (node j : Text) (m n : Outcome Parse)
    → Agree (Follows node j none) m n
    → metric_of (finish node j m) ≡ metric_of (finish node j n)
metric_of-Follows node j (raise e) (raise f) h = ap raise h
metric_of-Follows node j (ok p) (raise f) h = absurd h
metric_of-Follows node j (raise e) (ok q) h = absurd h
metric_of-Follows node j (ok p) (ok q) h =
    let same : lookup_in node j p.costs ≡ lookup_in node j q.costs = elim h.same_cost [
      | inl e ↦ e
      | inr (no_cost, e) ↦ e ∙ sym no_cost
    ] in
    elim (Option-cases (lookup_in node j q.costs)) [
      | inl e ↦ rw (same, e) refl
      | inr (metric, e) ↦ rw (same, e) refl
    ]

-- Reading a configuration with the costs of before gives the metric of a reading with none.
load_metric-uncached :
    (files : Configs) (costs : Costs) (node iface : Text)
    → lookup_in node iface costs ≡ none
    → metric_of (load_metric files costs node iface) ≡ metric_of (load_metric files [] node iface)
load_metric-uncached files costs node iface new = elim (Option-cases (files node)) [
  | inl e ↦ unfold load_metric in rw e refl
  | inr (config, e) ↦
      let r =
        subst
          (λ before.
            Agree (Follows node iface before)
              (read_config node (record { costs = costs; last = none }) (split 10 config))
              (read_config node (record { costs = []; last = none }) (split 10 config)))
          new (read_config-Follows node iface costs (split 10 config)) in
      ap metric_of (load_metric-finish files costs node iface config e)
      ∙ metric_of-Follows node iface _ _ r
      ∙ sym (ap metric_of (load_metric-finish files [] node iface config e))
]

-- With costs that come from the configurations, `get_metric` gives the metric, or the exception, of a
-- call with none.
pub get_metric-uncached :
    (files : Configs) (costs : Costs) (node iface : Text)
    → IsCache files costs
    → metric_of (get_metric files costs node iface) ≡ metric_of (get_metric files [] node iface)
unfolding get_metric
get_metric-uncached files costs node iface cache =
    let fresh : get_metric files [] node iface ≡ load_metric files [] node iface =
      unfold lookup in refl in
    elim (Option-cases (lookup_in node iface costs)) [
      | inl new ↦
          rw (new, get_metric)
            (load_metric-uncached files costs node iface new ∙ sym (ap metric_of fresh))
      | inr (metric, there) ↦
          let (own, e) = cache node iface metric there in
          rw (there, get_metric) (sym (ap metric_of (fresh ∙ e)))
    ]

-- ===== src/Comparison/Uncached.antt =====
-- The generated links do not depend on which costs were read before.
use mathlib.Core.Path.{subst}
use ns3_sim.Prelude.{
  ◌≡◌, refl, sym, ap, ◌∙◌, inl, inr, none, some, List, [], ◌∷◌, ◌==◌, Bool-cases, Option-cases,
}
use ns3_sim.Python.Outcome.{
  Outcome, ok, raise, key_error, file_not_found, or_raise, or_raise-eq-ok, traverse, >>=-eq-ok,
  ◌>>=◌,
}
use ns3_sim.Python.Dict.{Dict, lookup}
use ns3_sim.Python.Nested.{lookup_in}
use ns3_sim.Python.Text.{Text, text_eq, codes, split, join}
use ns3_sim.Comparison.{
  Costs, Parse, Configs, read_config, load_metric, get_metric, unpack_wire, link_line, generated,
}
use ns3_sim.Comparison.Agree.{Agree}
use ns3_sim.Comparison.Cache.{
  Follows, read_config-Follows, Keeps, read_config-Keeps, IsCache, metric_of, finish,
  load_metric-finish, get_metric-uncached,
}

-- The state that a reading ends with.
record Loaded (files : Configs) (costs costs' : Costs) (node : Text) : Type 0 where
  config : Text
  there : files node ≡ some config
  p : Parse
  read : read_config node (record { costs = costs; last = none }) (split 10 config) ≡ ok p
  end : p.costs ≡ costs'

load_metric-Loaded :
    (files : Configs) (costs costs' : Costs) (node iface metric : Text)
    → load_metric files costs node iface ≡ ok (costs', metric)
    → Loaded files costs costs' node
unfolding load_metric
load_metric-Loaded files costs costs' node iface metric h =
    let (config, e, h1) = >>=-eq-ok (or_raise file_not_found (files node)) _ h in
    let (p, e', h2) = >>=-eq-ok (read_config node _ (split 10 config)) _ h1 in
    let (m, e'', h3) = >>=-eq-ok (or_raise key_error (lookup_in node iface p.costs)) _ h2 in
    record {
      config = config;
      there = or_raise-eq-ok file_not_found (files node) e;
      p = p;
      read = e';
      end = cc h3;
    }

-- A cost of the node itself is what a reading with no costs gives.
own_cost :
    (files : Configs) (costs : Costs) (node j metric config : Text) (p : Parse) (n : Outcome Parse)
    → IsCache files costs
    → files node ≡ some config
    → read_config node (record { costs = []; last = none }) (split 10 config) ≡ n
    → Agree (Follows node j (lookup_in node j costs)) (ok p) n
    → lookup_in node j p.costs ≡ some metric
    → (own : Costs) × (load_metric files [] node j ≡ ok (own, metric))
own_cost files costs node j metric config p (raise e) cache there reads agree at = absurd agree
own_cost files costs node j metric config p (ok q) cache there reads agree at =
    let fresh : load_metric files [] node j ≡ finish node j (ok q) =
      load_metric-finish files [] node j config there ∙ ap (finish node j) reads in
    elim agree.same_cost [
      | inl e ↦
          let at_q : lookup_in node j q.costs ≡ some metric = sym e ∙ at in
          (q.costs, fresh ∙ rw at_q refl)
      | inr (no_cost, e) ↦ cache node j metric (sym e ∙ at)
    ]

other_cost :
    (i j : Text) (costs : Costs) (p : Parse) (m : Outcome Parse)
    → m ≡ ok p
    → Agree (Keeps i j (lookup_in i j costs)) m m
    → lookup_in i j p.costs ≡ lookup_in i j costs
other_cost i j costs p (raise e) h agree = cc h
other_cost i j costs p (ok q) h agree =
    let same : q ≡ p = cc h in
    subst (λ (r : Parse). lookup_in i j r.costs ≡ lookup_in i j costs) same agree.kept

load_metric-IsCache :
    (files : Configs) (costs costs' : Costs) (node iface metric : Text)
    → IsCache files costs
    → load_metric files costs node iface ≡ ok (costs', metric)
    → IsCache files costs'
load_metric-IsCache files costs costs' node iface metric cache h =
    let l = load_metric-Loaded files costs costs' node iface metric h in
    subst (IsCache files) l.end λ i j m at. elim (Bool-cases (i == node)) [
      | inl own ↦
          let same : i ≡ node = (text_eq.beq_iff i node).0 own in
          let agree =
            subst
              (λ x.
                Agree (Follows node j (lookup_in node j costs)) x
                  (read_config node (record { costs = []; last = none }) (split 10 l.config)))
              l.read (read_config-Follows node j costs (split 10 l.config)) in
          let at' : lookup_in node j l.p.costs ≡ some m =
            subst (λ x. lookup_in x j l.p.costs ≡ some m) same at in
          subst (λ x. (own : Costs) × (load_metric files [] x j ≡ ok (own, m))) (sym same)
            (own_cost files costs node j m l.config l.p _ cache l.there refl agree at')
      | inr other ↦
          let kept =
            other_cost i j costs l.p _ l.read
              (read_config-Keeps node i j costs (split 10 l.config) other) in
          cache i j m (sym kept ∙ at)
    ]

costs_eq :
    (a b : Costs) (m n : Text) → ◌≡◌ {A = Outcome (Costs × Text)} (ok (a, m)) (ok (b, n)) → a ≡ b
costs_eq a b m n q = cc

get_metric-IsCache :
    (files : Configs) (costs costs' : Costs) (node iface metric : Text)
    → IsCache files costs
    → get_metric files costs node iface ≡ ok (costs', metric)
    → IsCache files costs'
unfolding get_metric
get_metric-IsCache files costs costs' node iface metric cache h =
    elim (Option-cases (lookup_in node iface costs)) [
      | inl new ↦
          load_metric-IsCache files costs costs' node iface metric cache (rw (new, get_metric) at h)
      | inr (m, there) ↦
          let same : costs ≡ costs' =
            costs_eq costs costs' m metric (rw (there, get_metric) at h) in
          subst (IsCache files) same cache
    ]

metric_of-bind :
    {A : Type 0} (m : Outcome A) (f g : A → Outcome (Costs × Text))
    → ((a : A) → metric_of (f a) ≡ metric_of (g a))
    → metric_of (m >>= f) ≡ metric_of (m >>= g)
metric_of-bind (ok a) f g h = h a
metric_of-bind (raise e) f g h = refl

metric_of-map :
    (m n : Outcome (Costs × Text)) (f : Text → Text)
    → metric_of m ≡ metric_of n
    → metric_of (m >>= λ r. ok (r.0, f r.1)) ≡ metric_of (n >>= λ r. ok (r.0, f r.1))
metric_of-map (ok a) (ok b) f h = cc h
metric_of-map (ok a) (raise e) f h = cc h
metric_of-map (raise e) (ok b) f h = cc h
metric_of-map (raise e) (raise e') f h = h

empty-IsCache : (files : Configs) → IsCache files []
unfolding lookup
empty-IsCache files node iface metric at = let none_there : ⊥ = cc at in absurd none_there

module _ (files : Configs) (nodes : Dict Text Text) where
  link_line-uncached :
      (costs : Costs) (line : Text)
      → IsCache files costs
      → metric_of (link_line files nodes costs line) ≡ metric_of (link_line files nodes [] line)
  unfolding link_line
  link_line-uncached costs line cache = metric_of-bind (unpack_wire (split b',' line)) _ _ λ w.
      metric_of-bind (or_raise key_error (lookup w.n1 nodes)) _ _ λ first.
        metric_of-bind (or_raise key_error (lookup w.n2 nodes)) _ _ λ second.
          metric_of-map (get_metric files costs w.n1 w.i1) (get_metric files [] w.n1 w.i1)
            (λ metric. join (codes " ") (first ∷ second ∷ metric ∷ w.delay ∷ []))
            (get_metric-uncached files costs w.n1 w.i1 cache)

  link_line-IsCache :
      (costs costs' : Costs) (line msg : Text)
      → IsCache files costs
      → link_line files nodes costs line ≡ ok (costs', msg)
      → IsCache files costs'
  unfolding link_line
  link_line-IsCache costs costs' line msg cache h =
      let (w, e, h1) = >>=-eq-ok (unpack_wire (split b',' line)) _ h in
      let (first, e1, h2) = >>=-eq-ok (or_raise key_error (lookup w.n1 nodes)) _ h1 in
      let (second, e2, h3) = >>=-eq-ok (or_raise key_error (lookup w.n2 nodes)) _ h2 in
      let (r, e3, h4) = >>=-eq-ok (get_metric files costs w.n1 w.i1) _ h3 in
      let same : r.0 ≡ costs' = costs_eq r.0 costs' _ msg h4 in
      subst (IsCache files) same (get_metric-IsCache files costs r.0 w.n1 w.i1 r.1 cache e3)

  -- The line of one generated link, by a reading of its own.
  abbrev pub line_of : Text → Outcome Text
  line_of line = metric_of (link_line files nodes [] line)

  generated-step :
      (costs : Costs) (line : Text) (lines : List Text) (m : Outcome (Costs × Text))
      → link_line files nodes costs line ≡ m
      → metric_of m ≡ line_of line
      → ((costs' : Costs) (msg : Text)
          → m ≡ ok (costs', msg)
          → generated files nodes costs' lines ≡ traverse line_of lines)
      → generated files nodes costs (line ∷ lines) ≡ traverse line_of (line ∷ lines)
  unfolding generated traverse
  generated-step costs line lines (raise e) at same ih =
      rw (at, generated) (rw (sym same, traverse) refl)
  generated-step costs line lines (ok (costs', msg)) at same ih =
      rw (at, generated)
        (rw (sym same, traverse) (ap (λ r. r >>= λ rest. ok (msg ∷ rest)) (ih costs' msg refl)))

  generated_with :
      (costs : Costs) (lines : List Text)
      → IsCache files costs
      → generated files nodes costs lines ≡ traverse line_of lines
  unfolding generated traverse
  generated_with costs [] cache = refl
  generated_with costs (line ∷ lines) cache =
      generated-step costs line lines (link_line files nodes costs line) refl
        (link_line-uncached costs line cache)
        (λ costs' msg at.
          generated_with costs' lines (link_line-IsCache costs costs' line msg cache at))

  -- The generated links, and the exception where one is raised, are those that come from reading the
  -- configuration again for each link: the global table of costs changes nothing but the work.
  pub generated-uncached :
      (lines : List Text) → generated files nodes [] lines ≡ traverse line_of lines
  generated-uncached lines = generated_with [] lines (empty-IsCache files)

-- ===== src/Spf/Metrics.antt =====
-- The table of metrics as the lines of a file leave it.
use mathlib.Core.Path.{subst}
use ns3_sim.Prelude.{
  ◌≡◌, ◌↔◌, refl, sym, ap, ◌∙◌, ◌⊎◌, inl, inr, ◌&&◌, Option, none, some, List, [], ◌∷◌, ◌==◌,
  if◌then◌else◌, arith, In, IsOnce,
}
use ns3_sim.Prelude.Int.{ℤ}
use ns3_sim.Python.Outcome.{ok, traverse, >>=-eq-ok}
use ns3_sim.Python.Dict.{keys}
use ns3_sim.Python.Nested.{lookup_in, lookup_in-insert_in, In-keys-insert_in}
use ns3_sim.Python.Sequence.{append_new, append_new-Added}
use ns3_sim.Python.Text.{Text, text_eq}
use ns3_sim.Spf.{Entry, Inputs, read_entry_line, set_metric, add_entry, add_lines}

-- The metric of the last line for a pair, or `none` where no line has it.
abbrev pub metric_from : Option ℤ → List (Option Entry) → Text → Text → Option ℤ
metric_from metric [] src dst = metric
metric_from metric (none ∷ es) src dst = metric_from metric es src dst
metric_from metric (some e ∷ es) src dst =
    metric_from (if src == e.src && dst == e.dst then some e.metric else metric) es src dst

abbrev pub last_metric : List (Option Entry) → Text → Text → Option ℤ
last_metric = metric_from none

-- The first names of the lines, and all names.
abbrev pub sources : List (Option Entry) → List Text
sources [] = []
sources (none ∷ es) = sources es
sources (some e ∷ es) = e.src ∷ sources es

abbrev pub names : List (Option Entry) → List Text
names [] = []
names (none ∷ es) = names es
names (some e ∷ es) = e.src ∷ e.dst ∷ names es

abbrev pub add_all : Inputs → List (Option Entry) → Inputs
add_all t [] = t
add_all t (e ∷ es) = add_all (add_entry t e) es

pub add_lines-add_all :
    (t t' : Inputs) (lines : List Text)
    → add_lines t lines ≡ ok t'
    → (es : List (Option Entry)) × (traverse read_entry_line lines ≡ ok es) × (t' ≡ add_all t es)
unfolding add_lines traverse
add_lines-add_all t t' [] h = ([], refl, cc h)
add_lines-add_all t t' (line ∷ lines) h =
    let (e, read, h') = >>=-eq-ok (read_entry_line line) _ h in
    let (es, reads, same) = add_lines-add_all (add_entry t e) t' lines h' in
    (e ∷ es, rw (read, reads) refl, same)

pub add_lines_returns :
    (t : Inputs) (lines : List Text) (es : List (Option Entry))
    → traverse read_entry_line lines ≡ ok es
    → add_lines t lines ≡ ok (add_all t es)
unfolding add_lines traverse
add_lines_returns t [] es h = let none_read : es ≡ [] = cc h in rw none_read refl
add_lines_returns t (line ∷ lines) es h =
    let (e, read, h1) = >>=-eq-ok (read_entry_line line) _ h in
    let (es', reads, h2) = >>=-eq-ok (traverse read_entry_line lines) _ h1 in
    let split_es : es ≡ e ∷ es' = cc h2 in
    rw (split_es, read) (add_lines_returns (add_entry t e) lines es' reads)

pub lookup_in-add_all :
    (t : Inputs) (es : List (Option Entry)) (src dst : Text)
    → lookup_in src dst (add_all t es).links ≡ metric_from (lookup_in src dst t.links) es src dst
unfolding add_entry set_metric
lookup_in-add_all t [] src dst = refl
lookup_in-add_all t (none ∷ es) src dst = lookup_in-add_all t es src dst
lookup_in-add_all t (some e ∷ es) src dst =
    lookup_in-add_all (add_entry t (some e)) es src dst
    ∙ ap (λ m. metric_from m es src dst) (lookup_in-insert_in e.src src e.dst dst e.metric t.links)

pub In-keys-add_all :
    (t : Inputs) (es : List (Option Entry)) (x : Text)
    → In x (keys (add_all t es).links) ↔ (In x (keys t.links) ⊎ In x (sources es))
unfolding add_entry set_metric
In-keys-add_all t [] x = (λ m. inl m, λ m. elim m [ inl n ↦ n | inr none_left ↦ absurd none_left ])
In-keys-add_all t (none ∷ es) x = In-keys-add_all t es x
In-keys-add_all t (some e ∷ es) x =
    let rest = In-keys-add_all (add_entry t (some e)) es x in
    let one = In-keys-insert_in e.src x e.dst e.metric t.links in ground (arith, rest, one)

pub IsOnce-add_all :
    (t : Inputs) (es : List (Option Entry)) → IsOnce t.nodes → IsOnce (add_all t es).nodes
unfolding add_entry set_metric
IsOnce-add_all t [] h = h
IsOnce-add_all t (none ∷ es) h = IsOnce-add_all t es h
IsOnce-add_all t (some e ∷ es) h =
    let a = append_new-Added t.nodes e.src in
    let b = append_new-Added (append_new t.nodes e.src) e.dst in
    IsOnce-add_all (add_entry t (some e)) es (b.still_once (a.still_once h))

pub In-nodes-add_all :
    (t : Inputs) (es : List (Option Entry)) (x : Text)
    → In x (add_all t es).nodes ↔ (In x t.nodes ⊎ In x (names es))
unfolding add_entry set_metric
In-nodes-add_all t [] x = (λ m. inl m, λ m. elim m [ inl n ↦ n | inr none_left ↦ absurd none_left ])
In-nodes-add_all t (none ∷ es) x = In-nodes-add_all t es x
In-nodes-add_all t (some e ∷ es) x =
    let rest = In-nodes-add_all (add_entry t (some e)) es x in
    let a = append_new-Added t.nodes e.src in
    let b = append_new-Added (append_new t.nodes e.src) e.dst in
    (
      λ m. elim (rest.0 m) [
        | inl n ↦ elim (b.back x n) [
          | inl at ↦ inr (inr (inl at))
          | inr n' ↦ elim (a.back x n') [ inl at ↦ inr (inl at) | inr old ↦ inl old ]
        ]
        | inr n ↦ inr (inr (inr n))
      ],
      λ m. rest.1 (elim m [
        | inl old ↦ inl (b.kept x (a.kept x old))
        | inr (inl at) ↦
            inl (b.kept x (subst (λ y. In y (append_new t.nodes e.src)) (sym at) a.added))
        | inr (inr (inl at)) ↦
            inl (subst (λ y. In y (append_new (append_new t.nodes e.src) e.dst)) (sym at) b.added)
        | inr (inr (inr n)) ↦ inr n
      ]),
    )

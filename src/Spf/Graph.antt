-- ===== src/Spf/Graph.antt =====
-- The matrix of metrics.
use mathlib.Core.Path.{subst}
use ns3_sim.Prelude.{
  ◌≡◌, ◌↔◌, refl, sym, ap, ◌∙◌, inl, inr, Option, List, [], map, In, All-of_In, In_of_All, IsOnce,
}
use ns3_sim.Prelude.Int.{ℤ}
use ns3_sim.Python.Outcome.{
  ok, key_error, or_raise, or_raise-eq-ok, traverse, traverse-map, traverse_returns, traverse-All,
  >>=-eq-ok,
}
use ns3_sim.Python.Dict.{lookup, keys, In-keys_of_lookup, lookup_of_In-keys}
use ns3_sim.Python.Nested.{lookup_in, row_lookup}
use ns3_sim.Python.Text.{Text, text_eq, split, drop_last}
use ns3_sim.Spf.{
  Entry, Inputs, Matrix, read_entry_line, add_lines, read_inputs, graph_row, graph, disconnect,
}
use ns3_sim.Spf.Metrics.{
  last_metric, sources, names, add_all, add_lines-add_all, add_lines_returns, lookup_in-add_all,
  In-keys-add_all, IsOnce-add_all, In-nodes-add_all,
}

abbrev empty : Inputs
empty = record { nodes = []; links = [] }

-- The matrix of the nodes, in their order, with the metric of the last line for each pair.
abbrev pub matrix_of : List (Option Entry) → List Text → Matrix
matrix_of es nodes = map (λ src. map (λ dst. last_metric es src dst) nodes) nodes

graph_row-cells :
    (t : Inputs) (node : Text) (row : List (Option ℤ))
    → graph_row t node ≡ ok row
    → row ≡ map (λ other. lookup_in node other t.links) t.nodes
unfolding graph_row
graph_row-cells t node row h =
    let (r, e, h') = >>=-eq-ok (or_raise key_error (lookup node t.links)) _ h in
    let there = or_raise-eq-ok key_error (lookup node t.links) e in
    let same : map (λ other. lookup other r) t.nodes ≡ row = cc h' in
    sym same ∙ ap (λ o. map (λ other. row_lookup o other) t.nodes) (sym there)

metrics-last_metric :
    (es : List (Option Entry)) (src dst : Text)
    → lookup_in src dst (add_all empty es).links ≡ last_metric es src dst
unfolding lookup
metrics-last_metric es src dst = lookup_in-add_all empty es src dst

graph-matrix_of :
    (es : List (Option Entry)) (g : Matrix)
    → graph (add_all empty es) ≡ ok g
    → g ≡ matrix_of es (add_all empty es).nodes
unfolding graph
graph-matrix_of es g h =
    let t = add_all empty es in
    traverse-map (graph_row t) (λ src. map (λ dst. lookup_in src dst t.links) t.nodes) t.nodes g
      (graph_row-cells t) h
    ∙ ap (λ (f : Text → Text → Option ℤ). map (λ src. map (λ dst. f src dst) t.nodes) t.nodes)
        (λ i src dst. metrics-last_metric es src dst i)

-- The nodes of a file: the names of its lines, each once.
pub record Nodes (es : List (Option Entry)) (nodes : List Text) : Type 0 where
  pub once : IsOnce nodes
  pub named : (x : Text) → In x nodes ↔ In x (names es)

Nodes-add_all : (es : List (Option Entry)) → Nodes es (add_all empty es).nodes
Nodes-add_all es = record {
  once = IsOnce-add_all empty es tt;
  named = λ x.
      let (down, up) = In-nodes-add_all empty es x in
      (λ m. elim (down m) [ inl none_left ↦ absurd none_left | inr n ↦ n ], λ n. up (inr n));
}

-- The matrix has a row and a column for each name of the file, each name once, and its cells are the
-- metrics of the last lines for their pairs, or infinite where no line is for the pair.
pub disconnect-matrix_of :
    (text : Text) (g : Matrix)
    → disconnect text ≡ ok g
    → (es : List (Option Entry)) × (nodes : List Text) × (traverse read_entry_line
          (drop_last (split 10 text))
        ≡ ok es)
      × Nodes es nodes
      × (g ≡ matrix_of es nodes)
unfolding disconnect read_inputs
disconnect-matrix_of text g h =
    let (t, read, h') = >>=-eq-ok (add_lines empty (drop_last (split 10 text))) _ h in
    let (es, reads, same) = add_lines-add_all empty t (drop_last (split 10 text)) read in
    (
      es,
      (add_all empty es).nodes,
      reads,
      Nodes-add_all es,
      graph-matrix_of es g (subst (λ u. graph u ≡ ok g) same h'),
    )

-- `graph` asks for a row of the table for each node.
graph_row_iff :
    (t : Inputs) (node : Text)
    → ((row : List (Option ℤ)) × (graph_row t node ≡ ok row)) ↔ In node (keys t.links)
unfolding graph_row
graph_row_iff t node = (
  λ (row, h).
      let (r, e, h') = >>=-eq-ok (or_raise key_error (lookup node t.links)) _ h in
      In-keys_of_lookup node t.links (or_raise-eq-ok key_error (lookup node t.links) e),
  λ m.
      let (r, there) = lookup_of_In-keys node t.links m in
      (map (λ other. lookup other r) t.nodes, rw there refl),
)

-- For a file whose lines can be read, the matrix is returned exactly when each name is the first name of
-- a line; for another name the table has no row, which is a `KeyError`.
pub disconnect_returns_iff :
    (text : Text) (es : List (Option Entry))
    → traverse read_entry_line (drop_last (split 10 text)) ≡ ok es
    → ((g : Matrix) × (disconnect text ≡ ok g)) ↔ ((x : Text) → In x (names es) → In x (sources es))
unfolding disconnect read_inputs graph
disconnect_returns_iff text es reads =
    let t = add_all empty es in
    let read : add_lines empty (drop_last (split 10 text)) ≡ ok t =
      add_lines_returns empty (drop_last (split 10 text)) es reads in
    let nodes = Nodes-add_all es in
    (
      λ (g, h) x m.
          let rows = traverse-All (graph_row t) t.nodes g (rw read at h) in
          let row =
            In_of_All (λ y. (r : List (Option ℤ)) × (graph_row t y ≡ ok r)) t.nodes x rows
              ((nodes.named x).1 m) in
          elim ((In-keys-add_all empty es x).0 ((graph_row_iff t x).0 row)) [
            | inl none_left ↦ absurd none_left
            | inr s ↦ s
          ],
      λ all.
          let rows =
            All-of_In (λ y. (r : List (Option ℤ)) × (graph_row t y ≡ ok r)) t.nodes
              (λ x m.
                (graph_row_iff t x).1
                  ((In-keys-add_all empty es x).1 (inr (all x ((nodes.named x).0 m))))) in
          let (g, h) = traverse_returns (graph_row t) t.nodes rows in (g, rw read h),
    )

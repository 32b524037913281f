-- ===== src/Collect/RoundTrip.antt =====
-- A printed forwarding table is read back.
use mathlib.Core.Path.{subst}
use ns3_sim.Prelude.{
  ◌≡◌, ◌≢◌, refl, ap, ◌∙◌, inl, inr, true, false, Option, none, some, List, [], ◌∷◌, ◌++◌,
  append-nil, append_assoc, ◌==◌, option_eq, In, IsOnce, All, Bool-cases, Eq,
}
use ns3_sim.Python.Outcome.{Outcome, ok, raise, ◌>>=◌}
use ns3_sim.Python.Dict.{Dict, lookup, insert, keys, insert_new, lookup-insert_other}
use ns3_sim.Python.Text.{Text, codes, text_eq}
use ns3_sim.Python.Float.{Floats}
use ns3_sim.Fib.{Routes}
use ns3_sim.Collect.{
  Dump, read_kernel, read_parts, read_row, read_rows, Collected, store, add_neighs, collect_dump,
}
use ns3_sim.Collect.Multipath.{read_rows-multipath}
use ns3_sim.Collect.Printed.{
  Entry, own, neighbour, single, multi, printed, printed_all, neighs_of, routes_of, node_of,
  IsReadable, dump_text, rows_of-dump_text, printed_all-IsRow,
}

read_rows-append :
    (d : Dump) (a b : List (List Text))
    → read_rows d (a ++ b) ≡ (read_rows d a >>= λ d'. read_rows d' b)
unfolding read_rows
read_rows-append d [] b = refl
read_rows-append d (row ∷ a) b =
    bind (λ d'. read_rows d' a) (read_row d row) (λ d'. read_rows-append d' a b)
  where
    bind :
        {f : Dump → Outcome Dump} (g : Dump → Outcome Dump) (m : Outcome Dump)
        → ((d' : Dump) → f d' ≡ (g d' >>= λ d''. read_rows d'' b))
        → (m >>= f) ≡ ((m >>= g) >>= λ d''. read_rows d'' b)
    bind g (ok d') h = h d'
    bind g (raise e) h = refl

-- What an entry does to the variables of the loop.
abbrev noted : Entry → Dump → Dump
noted (own address) d = record d { node_id = some address; current = none }
noted (neighbour dst device address) d = record d {
  neighs = insert dst address d.neighs;
  current = none;
}
noted (single dst via device) d = record d {
  routes = insert (some dst) ((via, true) ∷ []) d.routes;
  current = none;
}
noted (multi dst device hop more) d = record d {
  routes = insert (some dst) (hop ∷ more) d.routes;
  current = some dst;
}

-- The destination is not one of a route that is known.
abbrev IsFresh : Entry → Dump → Type 0
IsFresh (multi dst device hop more) d = lookup (some dst) d.routes ≡ none
IsFresh (single dst via device) d = lookup (some dst) d.routes ≡ none
IsFresh (neighbour dst device address) d = lookup dst d.neighs ≡ none
IsFresh (own address) d = Unit

off : (s word : Text) → s ≢ word → (s == word) ≡ false
off s word h = elim (Bool-cases (s == word)) [
  | inl same ↦ absurd (h ((text_eq.beq_iff s word).0 same))
  | inr other ↦ other
]

read_rows-printed :
    (e : Entry) (d : Dump) → IsReadable e → IsFresh e d → read_rows d (printed e) ≡ ok (noted e d)
unfolding read_rows read_row read_parts read_kernel
read_rows-printed (own address) d h f = refl
read_rows-printed (neighbour dst device address) d h f = refl
read_rows-printed (single dst via device) d (h, v, w, first, other) f =
    rw (off device (codes "kernel") other) (rw (off dst (codes "\tnexthop") first) refl)
read_rows-printed (multi dst device hop more) d (h, w, hops, other) f =
    read_rows-multipath device other d dst hop more f

-- None of the keys is there yet, and none comes twice.
record IsNew {K V : Type 0} ⦃e : Eq K⦄ (old new : Dict K V) : Type 0 where
  once : IsOnce (keys new)
  absent : (k : K) → In k (keys new) → lookup k old ≡ none

module _ {K V : Type 0} ⦃e : Eq K⦄ where
  IsNew-rest :
      (k : K) (v : V) (old new : Dict K V) → IsNew old ((k, v) ∷ new) → IsNew (insert k v old) new
  IsNew-rest k v old new n = record {
    once = n.once.1;
    absent = λ j m.
        lookup-insert_other j k v old (λ at. n.once.0 (subst (λ x. In x (keys new)) at m))
        ∙ n.absent j (inr m);
  }

  grown :
      (k : K) (v : V) (old new : Dict K V)
      → IsNew old ((k, v) ∷ new)
      → insert k v old ++ new ≡ old ++ (k, v) ∷ new
  grown k v old new n =
      rw (insert_new k v old (n.absent k (inl refl))) (append_assoc old ((k, v) ∷ []) new)

-- The variables of the loop behind the rows of `entries`.
abbrev behind : List Entry → Dump → Option Text → Dump
behind entries d current = record {
  neighs = d.neighs ++ neighs_of entries;
  routes = d.routes ++ routes_of entries;
  current = current;
  node_id = node_of d.node_id entries;
}

abbrev Read : List Entry → Dump → List (List Text) → Type 0
Read entries d rows = (current : Option Text) × (read_rows d rows ≡ ok (behind entries d current))

Read-cons :
    (e : Entry) (entries : List Entry) (d : Dump)
    → IsReadable e
    → IsFresh e d
    → Read entries (noted e d) (printed_all entries)
    → ((current : Option Text)
        → behind entries (noted e d) current ≡ behind (e ∷ entries) d current)
    → Read (e ∷ entries) d (printed_all (e ∷ entries))
Read-cons e entries d h f (current, read) same = (
  current,
  read_rows-append d (printed e) (printed_all entries)
      ∙ rw (read_rows-printed e d h f) (read ∙ ap (λ (r : Dump). ok r) (same current)),
)

printed_all-Read :
    (entries : List Entry) (d : Dump)
    → All IsReadable entries
    → IsNew d.neighs (neighs_of entries)
    → IsNew d.routes (routes_of entries)
    → Read entries d (printed_all entries)
unfolding read_rows
printed_all-Read [] d h n r = (d.current, rw (append-nil d.neighs, append-nil d.routes) refl)
printed_all-Read (own address ∷ entries) d h n r =
    Read-cons (own address) entries d h.0 tt
      (printed_all-Read entries (noted (own address) d) h.1 n r) (λ current. refl)
printed_all-Read (neighbour dst device address ∷ entries) d h n r =
    Read-cons (neighbour dst device address) entries d h.0 (n.absent dst (inl refl))
      (printed_all-Read entries (noted (neighbour dst device address) d) h.1
        (IsNew-rest dst address d.neighs (neighs_of entries) n) r)
      (λ current.
        ap
          (λ (x : Dict Text Text).
            record (behind entries (noted (neighbour dst device address) d) current) { neighs = x })
          (grown dst address d.neighs (neighs_of entries) n))
printed_all-Read (single dst via device ∷ entries) d h n r =
    Read-cons (single dst via device) entries d h.0 (r.absent (some dst) (inl refl))
      (printed_all-Read entries (noted (single dst via device) d) h.1 n
        (IsNew-rest (some dst) ((via, true) ∷ []) d.routes (routes_of entries) r))
      (λ current.
        ap
          (λ (x : Routes). record (behind entries (noted (single dst via device) d) current) {
            routes = x;
          })
          (grown (some dst) ((via, true) ∷ []) d.routes (routes_of entries) r))
printed_all-Read (multi dst device hop more ∷ entries) d h n r =
    Read-cons (multi dst device hop more) entries d h.0 (r.absent (some dst) (inl refl))
      (printed_all-Read entries (noted (multi dst device hop more) d) h.1 n
        (IsNew-rest (some dst) (hop ∷ more) d.routes (routes_of entries) r))
      (λ current.
        ap
          (λ (x : Routes). record (behind entries (noted (multi dst device hop more) d) current) {
            routes = x;
          })
          (grown (some dst) (hop ∷ more) d.routes (routes_of entries) r))

module _ (floats : Floats) where
  open floats use {Float}

  -- A dump that is printed from a table with the router's own address, whose words can be told apart and
  -- whose destinations are different, is filed under that address, with exactly the neighbours and the
  -- routes of the table, in their order, and the ends of its links lead to the router.
  pub collect_dump-printed :
      (c : Collected floats) (time : Float) (entries : List Entry) (node : Text)
      → All IsReadable entries
      → IsOnce (keys (neighs_of entries))
      → IsOnce (keys (routes_of entries))
      → node_of c.node_id entries ≡ some node
      → collect_dump floats c time (dump_text (printed_all entries))
        ≡ ok (record {
          fibs =
              store floats time node
                (record { neighs = neighs_of entries; routes = routes_of entries })
                c.fibs;
          reverse = add_neighs (neighs_of entries) node c.reverse;
          node_id = some node;
        })
  unfolding collect_dump lookup
  collect_dump-printed c time entries node h once once' named =
      let (current, read) =
        printed_all-Read entries
          (record { neighs = []; routes = []; current = none; node_id = c.node_id }) h
          (record { once = once; absent = λ k m. refl })
          (record { once = once'; absent = λ k m. refl }) in
      rw (rows_of-dump_text (printed_all entries) (printed_all-IsRow entries h))
        (rw read (rw named refl))

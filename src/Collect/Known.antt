-- ===== src/Collect/Known.antt =====
-- The ends of links lead to routers whose tables were collected.
use mathlib.Core.Path.{subst}
use ns3_sim.Prelude.{
  Eq, ◌==◌, ◌∙◌, option_eq, ◌≡◌, refl, sym, inl, inr, Option, some, List, [], ◌∷◌, if◌then◌else◌,
  Bool-cases, Option-cases,
}
use ns3_sim.Prelude.Int.{pos, leb_ℤ}
use ns3_sim.Python.Outcome.{
  ok, index, or_raise, value_error, unbound_local, file_not_found, >>=-eq-ok,
}
use ns3_sim.Python.Dict.{Dict, lookup, insert, lookup-insert, Entries, Entries-insert}
use ns3_sim.Python.Text.{Text, codes, text_eq, split, non_empty, occurs_in, drop_last}
use ns3_sim.Python.Number.{int}
use ns3_sim.Python.Float.{Floats}
use ns3_sim.Fib.{Fib, Snapshot, Reverse}
use ns3_sim.Collect.{
  Process, rows_of, read_rows, isdigit, inner, add_neighs, Collected, store, collect_dump,
  collect_status, collect_process, collect_all, collect_fibs,
}

module _ (floats : Floats) where
  open floats use {Float, float_eq, parse, of_int, div}

  -- The table of a router in a snapshot.
  pub record HasTable (fibs : Dict Float Snapshot) (router : Text) : Type 0 where
    pub time : Float
    pub snapshot : Snapshot
    pub taken : lookup ⦃e = float_eq⦄ time fibs ≡ some snapshot
    pub fib : Fib
    pub tabled : lookup router snapshot ≡ some fib

  -- Each end of a link belongs to a router that has a table.
  abbrev pub IsKnown : Dict Float Snapshot → Reverse → Type 0
  IsKnown fibs reverse = Entries (λ end router. HasTable fibs router) reverse

  -- The table that was assigned.
  HasTable-new :
      (time : Float) (router : Text) (fib : Fib) (old : Snapshot) (fibs : Dict Float Snapshot)
      → HasTable (insert ⦃e = float_eq⦄ time (insert router fib old) fibs) router
  HasTable-new time router fib old fibs = record {
    time = time;
    snapshot = insert router fib old;
    taken =
        lookup-insert ⦃e = float_eq⦄ time time (insert router fib old) fibs ∙ here float_eq time _;
    fib = fib;
    tabled = lookup-insert router router fib old ∙ here text_eq router _;
  }
    where
      here :
          {K V : Type 0} (e : Eq K) (k : K) {v : Option V} (w : Option V)
          → (if e.beq k k then v else w) ≡ v
      here e k w = rw ((e.beq_iff k k).1 refl) refl

  -- An assignment to a time whose snapshot was `old`, or that had none, keeps the tables of the others.
  HasTable-kept :
      (time : Float) (router r : Text) (fib : Fib) (old : Snapshot) (fibs : Dict Float Snapshot)
      → ((s : Snapshot) → lookup ⦃e = float_eq⦄ time fibs ≡ some s → s ≡ old)
      → HasTable fibs r
      → HasTable (insert ⦃e = float_eq⦄ time (insert router fib old) fibs) r
  HasTable-kept time router r fib old fibs was h = elim (Bool-cases (float_eq.beq h.time time)) [
    | inr other ↦ record {
      time = h.time;
      snapshot = h.snapshot;
      taken =
          lookup-insert ⦃e = float_eq⦄ time h.time (insert router fib old) fibs ∙ rw other h.taken;
      fib = h.fib;
      tabled = h.tabled;
    }
    | inl same ↦ elim (Bool-cases (r == router)) [
      | inl own ↦
          subst (HasTable (insert ⦃e = float_eq⦄ time (insert router fib old) fibs))
            (sym ((text_eq.beq_iff r router).0 own)) (HasTable-new time router fib old fibs)
      | inr other ↦
          let at : h.time ≡ time = (float_eq.beq_iff h.time time).0 same in
          let is_old : h.snapshot ≡ old =
            was h.snapshot
              (subst (λ t. lookup ⦃e = float_eq⦄ t fibs ≡ some h.snapshot) at h.taken) in
          record {
            time = h.time;
            snapshot = insert router fib old;
            taken =
                lookup-insert ⦃e = float_eq⦄ time h.time (insert router fib old) fibs
                ∙ rw same refl;
            fib = h.fib;
            tabled =
                lookup-insert router r fib old
                ∙ rw other (subst (λ (s : Snapshot). lookup r s ≡ some h.fib) is_old h.tabled);
          }
    ]
  ]

  store-HasTable :
      (time : Float) (router : Text) (fib : Fib) (fibs : Dict Float Snapshot)
      → HasTable (store floats time router fib fibs) router
        × ((r : Text) → HasTable fibs r → HasTable (store floats time router fib fibs) r)
  unfolding store insert
  store-HasTable time router fib fibs = elim (Option-cases (lookup ⦃e = float_eq⦄ time fibs)) [
    | inl new ↦
        let fresh = HasTable-new time router fib [] fibs in
        rw (new, store)
          (fresh, λ r h. HasTable-kept time router r fib [] fibs (λ s e. cc (new, e)) h)
    | inr (old, there) ↦
        let fresh = HasTable-new time router fib old fibs in
        rw (there, store)
          (fresh, λ r h. HasTable-kept time router r fib old fibs (λ s e. cc (there, e)) h)
  ]

  IsKnown-more :
      (fibs fibs' : Dict Float Snapshot) (reverse : Reverse)
      → ((r : Text) → HasTable fibs r → HasTable fibs' r)
      → IsKnown fibs reverse
      → IsKnown fibs' reverse
  IsKnown-more fibs fibs' [] more h = tt
  IsKnown-more fibs fibs' ((end, router) ∷ reverse) more h =
      (more router h.0, IsKnown-more fibs fibs' reverse more h.1)

  add_neighs-IsKnown :
      (fibs : Dict Float Snapshot) (neighs : Dict Text Text) (node : Text) (reverse : Reverse)
      → HasTable fibs node
      → IsKnown fibs reverse
      → IsKnown fibs (add_neighs neighs node reverse)
  unfolding add_neighs
  add_neighs-IsKnown fibs [] node reverse t h = h
  add_neighs-IsKnown fibs ((a, b) ∷ neighs) node reverse t h =
      add_neighs-IsKnown fibs neighs node (insert b node reverse) t
        (Entries-insert (λ end router. HasTable fibs router) b node reverse t h)

  abbrev Kept : Collected floats → Type 0
  Kept c = IsKnown c.fibs c.reverse

  ok_eq : {a b : Collected floats} → ok a ≡ ok b → a ≡ b
  ok_eq q = cc

  collect_dump-IsKnown :
      (c c' : Collected floats) (time : Float) (stdout : Text)
      → Kept c
      → collect_dump floats c time stdout ≡ ok c'
      → Kept c'
  unfolding collect_dump
  collect_dump-IsKnown c c' time stdout h e =
      let (d, e1, h1) = >>=-eq-ok (read_rows _ (rows_of stdout)) _ e in
      let (node, e2, h2) = >>=-eq-ok (or_raise unbound_local d.node_id) _ h1 in
      let (own, others) = store-HasTable time node _ c.fibs in
      subst Kept (ok_eq h2) (
        add_neighs-IsKnown _ d.neighs node c.reverse own (IsKnown-more c.fibs _ c.reverse others h))

  unchanged : (c c' : Collected floats) → Kept c → ok c ≡ ok c' → Kept c'
  unchanged c c' h e = subst Kept (ok_eq e) h

  collect_status-IsKnown :
      (c c' : Collected floats) (p : Process) → Kept c → collect_status floats c p ≡ ok c' → Kept c'
  unfolding collect_status
  collect_status-IsKnown c c' p h e =
      let (content, e1, h1) = >>=-eq-ok (or_raise file_not_found p.status) _ e in
      let (first_line, e2, h2) = >>=-eq-ok (index (split 10 content) 0) _ h1 in
      let (start, e3, h3) = >>=-eq-ok (index (non_empty (split 32 first_line)) 4) _ h2 in
      let (seconds, e4, h4) = >>=-eq-ok (int (drop_last start)) _ h3 in
      elim (Bool-cases (leb_ℤ (pos 60) seconds)) [
        | inr early ↦ unchanged c c' h (rw early at h4)
        | inl late ↦
            let h4' = rw late at h4 in
            let (time, e5, h5) = >>=-eq-ok (index (non_empty (split 32 first_line)) 6) _ h4' in
            let (t, e6, h6) = >>=-eq-ok (or_raise value_error (parse (inner time))) _ h5 in
            let (stdout, e7, h7) = >>=-eq-ok (or_raise file_not_found p.stdout) _ h6 in
            collect_dump-IsKnown c c' _ stdout h h7
      ]

  collect_process-IsKnown :
      (c c' : Collected floats) (p : Process)
      → Kept c
      → collect_process floats c p ≡ ok c'
      → Kept c'
  unfolding collect_process
  collect_process-IsKnown c c' p h e = elim (Bool-cases (isdigit p.name)) [
    | inr other ↦ unchanged c c' h (rw (other, collect_process) at e)
    | inl digits ↦
        let (command, e1, h1) =
          >>=-eq-ok (or_raise file_not_found p.cmdline) _ (rw (digits, collect_process) at e) in
        elim (Bool-cases (occurs_in (codes "ip r") command)) [
          | inr other ↦ unchanged c c' h (rw other at h1)
          | inl route ↦ collect_status-IsKnown c c' p h (rw route at h1)
        ]
  ]

  collect_all-IsKnown :
      (c c' : Collected floats) (processes : List Process)
      → Kept c
      → collect_all floats c processes ≡ ok c'
      → Kept c'
  unfolding collect_all
  collect_all-IsKnown c c' [] h e = unchanged c c' h e
  collect_all-IsKnown c c' (p ∷ processes) h e =
      let (mid, e1, h1) = >>=-eq-ok (collect_process floats c p) _ e in
      collect_all-IsKnown mid c' processes (collect_process-IsKnown c mid p h e1) h1

  -- Collecting a further node keeps it that each end of a link leads to a router that has a table in some
  -- snapshot.
  pub collect_fibs-IsKnown :
      (processes : List Process) (fibs fibs' : Dict Float Snapshot) (reverse reverse' : Reverse)
      → IsKnown fibs reverse
      → collect_fibs floats processes fibs reverse ≡ ok (fibs', reverse')
      → IsKnown fibs' reverse'
  unfolding collect_fibs
  collect_fibs-IsKnown processes fibs fibs' reverse reverse' h e =
      let (c, e1, h1) = >>=-eq-ok (collect_all floats _ processes) _ e in
      let parts : ◌≡◌ {A = Dict Float Snapshot × Reverse} (c.fibs, c.reverse) (fibs', reverse') =
        cc h1 in
      subst (λ (p : Dict Float Snapshot × Reverse). IsKnown p.0 p.1) parts
        (collect_all-IsKnown _ c processes h e1)

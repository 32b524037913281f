-- ===== src/Explore/Reports.antt =====
-- What the search appends, call by call.
use ns3_sim.Prelude.{
  ℕ, zero, suc, true, ◌≡◌, ◌≢◌, refl, sym, ◌⊎◌, inl, inr, ◌↔◌, none, some, List, [], ◌∷◌, ◌++◌, In,
  Bool-cases, Option-cases, ◌==◌,
}
use mathlib.Core.Path.{subst}
use ns3_sim.Prelude.Int.{ℤ}
use ns3_sim.Python.Outcome.{ok, >>=-eq-ok, or_raise, or_raise-eq-ok, key_error}
use ns3_sim.Python.Dict.{lookup}
use ns3_sim.Python.Text.{Text, text_eq}
use ns3_sim.Fib.{Nexthops, Snapshot, Reverse}
use ns3_sim.Address.{ip_into_rid, parse_route}
use ns3_sim.Explore.{Item, route, not_found, forwarding, report_missing, loop}
use ns3_sim.Explore.Walk.{Hop, Ends, Misses}
use ns3_sim.Explore.Adds.{Adds, Adds-one, Adds-iff, ok_lem}
use ns3_sim.Explore.Follow.{EmitsOne, follow_all_adds}

module _ (fibs : Snapshot) (reverse : Reverse) (dst : Text) where
  -- What a call of the search at `u` appends: an item for the end of a walk that goes on from there.
  pub data Reports : List Text → Text → Item → Type 0 where
    ends :
        {before : List Text} {u : Text} {item : Item}
        → Ends fibs reverse dst before u item
        → Reports before u item
    further :
        {before here : List Text} {u v : Text} {item : Item}
        → u ≢ dst
        → here ≡ before ++ u ∷ []
        → Hop fibs reverse dst u v
        → ¬ In v here
        → Reports here v item
        → Reports before u item

  -- A report is the end of the walk, or comes from one hop further.
  record Further (before : List Text) (u : Text) (item : Item) : Type 0 where
    not_dst : u ≢ dst
    next : Text
    hop_on : Hop fibs reverse dst u next
    new : ¬ In next (before ++ u ∷ [])
    later : Reports (before ++ u ∷ []) next item

  Reports-cases :
      {before : List Text} {u : Text} {item : Item}
      → Reports before u item
      → Ends fibs reverse dst before u item ⊎ Further before u item
  Reports-cases (ends e) = inl e
  Reports-cases (further {v = v} {item = item} n here_is hop new later) = inr (record {
    not_dst = n;
    next = v;
    hop_on = hop;
    new = subst (λ l. ¬ In v l) here_is new;
    later = subst (λ l. Reports l v item) here_is later;
  })

  Reports-at_dst :
      (before : List Text) (u : Text) (numbers : List ℤ) (item : Item)
      → u ≡ dst
      → parse_route (before ++ u ∷ []) ≡ ok numbers
      → Reports before u item ↔ (item ≡ route numbers)
  Reports-at_dst before u numbers item at read = (
    λ m. elim (Reports-cases m) [
      | inl e ↦ elim e [
        | inl a ↦ cc (a.is_route, a.read, read)
        | inr (inl x) ↦ absurd (x.not_dst at)
        | inr (inr x) ↦ absurd (x.not_dst at)
      ]
      | inr x ↦ absurd (x.not_dst at)
    ],
    λ e. ends (inl (record { at_dst = at; numbers = numbers; read = read; is_route = e })),
  )

  Reports-missing :
      (before : List Text) (u : Text) (item : Item)
      → forwarding fibs u dst ≡ none
      → u ≢ dst
      → Reports before u item ↔ Misses fibs reverse dst u item
  Reports-missing before u item none_there off = (
    λ m. elim (Reports-cases m) [
      | inl e ↦ elim e [
        | inl a ↦ absurd (off a.at_dst)
        | inr (inl x) ↦ x
        | inr (inr x) ↦ cc (x.hop_back.table, none_there)
      ]
      | inr x ↦ cc (x.hop_on.table, none_there)
    ],
    λ x. ends (inr (inl x)),
  )

  listed-In :
      {u v : Text} (nexthops : Nexthops) (hop : Hop fibs reverse dst u v)
      → forwarding fibs u dst ≡ some nexthops
      → In (hop.via, true) nexthops
  listed-In nexthops hop table = subst (In (hop.via, true)) same hop.listed
    where
      same : hop.nexthops ≡ nexthops
      same = cc (hop.table, table)

  Reports-hops :
      (before : List Text) (u : Text) (nexthops : Nexthops) (item : Item)
      → forwarding fibs u dst ≡ some nexthops
      → u ≢ dst
      → EmitsOne reverse (before ++ u ∷ []) (Reports (before ++ u ∷ [])) nexthops item
        ↔ Reports before u item
  Reports-hops before u nexthops item table off = (
    λ m. elim (m.emits.emitted) [
      | inl p ↦ ends (
          inr (
            inr (record {
              not_dst = off;
              back = m.emits.owner;
              hop_back = record {
                nexthops = nexthops;
                table = table;
                via = m.via;
                listed = m.listed;
                owner = m.emits.owned;
              };
              passed = p.0;
              number = p.1.number;
              numbers = p.1.numbers;
              read_back = p.1.read_back;
              read_here = p.1.read_here;
              is_loop = p.1.is_loop;
            })))
      | inr q ↦
          further off refl
            (record {
              nexthops = nexthops;
              table = table;
              via = m.via;
              listed = m.listed;
              owner = m.emits.owned;
            })
            q.0 q.1
    ],
    λ m. elim (Reports-cases m) [
      | inl e ↦ elim e [
        | inl a ↦ absurd (off a.at_dst)
        | inr (inl x) ↦ cc (x.no_route, table)
        | inr (inr x) ↦ record {
          via = x.hop_back.via;
          listed = listed-In nexthops x.hop_back table;
          emits = record {
            owner = x.back;
            owned = x.hop_back.owner;
            emitted = inl (
              x.passed,
              record {
                number = x.number;
                numbers = x.numbers;
                read_back = x.read_back;
                read_here = x.read_here;
                is_loop = x.is_loop;
              },
            );
          };
        }
      ]
      | inr x ↦ record {
        via = x.hop_on.via;
        listed = listed-In nexthops x.hop_on table;
        emits = record { owner = x.next; owned = x.hop_on.owner; emitted = inr (x.new, x.later) };
      }
    ],
  )

  missing_adds :
      (before : List Text) (u : Text) (c out : List Item)
      → forwarding fibs u dst ≡ none
      → u ≢ dst
      → report_missing fibs u dst c ≡ ok out
      → Adds c out (Reports before u)
  unfolding report_missing
  missing_adds before u c out none_there off h =
      let (d, ed, h2) = >>=-eq-ok (ip_into_rid dst) _ h in
      let (n, en, h3) = >>=-eq-ok (ip_into_rid u) _ h2 in
      let (fib, ef, h4) = >>=-eq-ok (or_raise key_error (lookup u fibs)) _ h3 in
      let there = or_raise-eq-ok key_error (lookup u fibs) ef in
      Adds-one (not_found d n fib.routes) (sym (ok_lem h4)) (λ item. (
        λ m.
            let x = (Reports-missing before u item none_there off).0 m in
            cc (x.is_missing, x.read_dst, x.read_u, x.table, ed, en, there),
        λ e. (Reports-missing before u item none_there off).1 (record {
          not_dst = off;
          no_route = none_there;
          dst_number = d;
          u_number = n;
          fib = fib;
          read_dst = ed;
          read_u = en;
          table = there;
          is_missing = e;
        }),
      ))

  -- The items that a call appends are the reports from where it stands.
  pub loop_adds :
      (fuel : ℕ) (u : Text) (before : List Text) (c out : List Item)
      → loop fibs reverse dst fuel u before c ≡ ok out
      → Adds c out (Reports before u)
  unfolding loop
  loop_adds zero u before c out h = cc
  loop_adds (suc fuel) u before c out h = elim (Bool-cases (u == dst)) [
    | inl arrived ↦
        let (numbers, read, h2) =
          >>=-eq-ok (parse_route (before ++ u ∷ [])) (λ r. ok (c ++ route r ∷ []))
            (rw (arrived, loop) at h) in
        Adds-one (route numbers) (sym (ok_lem h2))
          (λ item. Reports-at_dst before u numbers item ((text_eq.beq_iff u dst).0 arrived) read)
    | inr on ↦
        let off : u ≢ dst = λ e. cc (on, (text_eq.beq_iff u dst).1 e) in
        elim (Option-cases (forwarding fibs u dst)) [
          | inl missing ↦ missing_adds before u c out missing off (rw (on, missing, loop) at h)
          | inr (nexthops, table) ↦
              Adds-iff
                (follow_all_adds reverse (before ++ u ∷ [])
                  (λ nexthop c'. loop fibs reverse dst fuel nexthop (before ++ u ∷ []) c')
                  (Reports (before ++ u ∷ []))
                  (λ v c' out' _ h'. loop_adds fuel v (before ++ u ∷ []) c' out' h') nexthops c out
                  (rw (on, table, loop) at h))
                (λ item. Reports-hops before u nexthops item table off)
        ]
  ]

-- ===== src/Explore/Found.antt =====
-- `explore` against the walks of the snapshot.

use ns3_sim.Prelude.{◌+◌, ◌≡◌, inl, inr, ◌↔◌, List, [], In, length}
use ns3_sim.Python.Outcome.{ok, >>=-eq-ok}
use ns3_sim.Python.Text.{Text, text_eq}
use ns3_sim.Fib.{Snapshot, Reverse}
use ns3_sim.Address.{ip_into_rid}
use ns3_sim.Explore.{Item, loop, explore}
use ns3_sim.Explore.Walk.{Walk, start, hop, Ends}
use ns3_sim.Explore.Reports.{Reports, ends, further, loop_adds}

module _ (fibs : Snapshot) (reverse : Reverse) (src dst : Text) where
  -- A walk from the source with its end, and the item for it.
  pub record IsFound (item : Item) : Type 0 where
    pub before : List Text
    pub stop : Text
    pub walk : Walk fibs reverse dst src before stop
    pub ending : Ends fibs reverse dst before stop item

  IsFound-of_Reports :
      {before : List Text} {u : Text} {item : Item}
      → Walk fibs reverse dst src before u
      → Reports fibs reverse dst before u item
      → IsFound item
  IsFound-of_Reports {before} {u} w (ends e) = record {
    before = before;
    stop = u;
    walk = w;
    ending = e;
  }
  IsFound-of_Reports w (further n e h new later) = IsFound-of_Reports (hop w n e h new) later

  Reports-of_Walk :
      {before : List Text} {u : Text} {item : Item}
      → Walk fibs reverse dst src before u
      → Reports fibs reverse dst before u item
      → Reports fibs reverse dst [] src item
  Reports-of_Walk start r = r
  Reports-of_Walk (hop w n e h new) r = Reports-of_Walk w (further n e h new r)

  explore-loop :
      {items : List Item}
      → explore src dst fibs reverse ≡ ok items
      → loop fibs reverse dst (length reverse + 1) src [] [] ≡ ok items
  unfolding explore
  explore-loop h =
      let (found, e, h2) = >>=-eq-ok (loop fibs reverse dst (length reverse + 1) src [] []) _ h in
      let (n, en, h3) = >>=-eq-ok (ip_into_rid src) _ h2 in
      let (m, em, h4) = >>=-eq-ok (ip_into_rid dst) _ h3 in cc e

  -- When the search returns, it has listed the items of the walks from the source, and no others: the
  -- route of each walk that arrives, a text for each walk to a router with no route to the
  -- destination, and a tuple for each hop that leads back into its walk.
  pub explore_items :
      {items : List Item}
      → explore src dst fibs reverse ≡ ok items
      → (item : Item) → In item items ↔ IsFound item
  explore_items h item =
      let adds =
        (loop_adds fibs reverse dst (length reverse + 1) src [] [] _ (explore-loop h)).at item in
      (
        λ m. elim (adds.0 m) [
          | inl none_yet ↦ absurd none_yet
          | inr r ↦ IsFound-of_Reports start r
        ],
        λ f. adds.1 (inr (Reports-of_Walk f.walk (ends f.ending))),
      )

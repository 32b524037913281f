-- ===== src/Tests/NtfOneWay.antt =====
-- Files of failures at concrete inputs.
use mathlib.Core.Path.{subst}
use ns3_sim.Prelude.{
  ◌≡◌, refl, ◌⊎◌, inl, inr, some, [], ◌∷◌, In, In→contains, false, IsOnce, contains, option_eq,
}
use ns3_sim.Prelude.Int.{ℤ, pos, negsuc, int_eq, ◌*ℤ◌}
use ns3_sim.Python.Outcome.{ok, raise, system_exit, traverse}
use ns3_sim.Python.Sequence.{append_new}
use ns3_sim.Python.Dict.{Dict, lookup, insert, keys}
use ns3_sim.Python.Text.{Text, text_eq, codes, split}
use ns3_sim.Python.Number.{int}
use ns3_sim.TopologyFile.{is_skipped, kept_lines}
use ns3_sim.Ntf.{
  Key, key_eq, reversed, Link, Topology, pad, int_field, float_field, read_entry, read_link, extend,
  add_link, read_lines, read_topology,
}
use ns3_sim.Ntf.OneWay.{singles, read_topology-one_way}
use ns3_sim.Tests.Sample.{whole_floats}

-- The failures of two parallel links.
abbrev text : Text
text = codes "a b 1 5 60\na b 2 5 70\n"

abbrev ends : Key
ends = (some (codes "a"), some (codes "b"))

abbrev entry : ℤ → ℤ → Link
entry metric time = record {
  f_metric = metric;
  delay = pos 5000000;
  r_metric = negsuc 0;
  begin = time;
  end = negsuc 0;
}

abbrev entries : Dict Key Link
entries = (ends, entry (pos 1) (pos 60)) ∷ (ends, entry (pos 2) (pos 70)) ∷ []

read_link-text : traverse (read_link whole_floats ok) (kept_lines (split 10 text)) ≡ ok entries
unfolding traverse read_link read_entry pad int_field float_field split int ◌*ℤ◌ is_skipped
read_link-text = refl

not_contained : contains (keys entries) (reversed ends) ≡ false
unfolding contains
not_contained = refl

not_back : ¬ In (reversed ends) (keys entries)
not_back m = cc (not_contained, In→contains (reversed ends) (keys entries) m)

apart : (k : Key) → In k (keys entries) → ¬ In (reversed k) (keys entries)
apart k (inl e) n = not_back (subst (λ j. In (reversed j) (keys entries)) e n)
apart k (inr (inl e)) n = not_back (subst (λ j. In (reversed j) (keys entries)) e n)
apart k (inr (inr m)) n = absurd m

read_topology-one_way_example :
    ((t : Topology) × (read_topology whole_floats ok text ≡ ok t)
      × (t.links ≡ singles entries)
      × IsOnce (keys entries))
    ⊎ ((read_topology whole_floats ok text ≡ raise (system_exit 1)) × (¬ IsOnce (keys entries)))
read_topology-one_way_example =
    read_topology-one_way whole_floats ok text entries read_link-text apart

read_topology-parallel : read_topology whole_floats ok text ≡ raise (system_exit 1)
unfolding read_topology read_lines read_link read_entry pad int_field float_field split int ◌*ℤ◌
    is_skipped add_link append_new extend lookup insert contains
read_topology-parallel = refl

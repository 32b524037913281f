-- ===== src/Lib.antt =====
-- Models of the Python scripts of ns3-sim: the evaluation of OSPF convergence from the dumps of a
-- simulation.
--
-- The parts and their files:
--   Address    fib_parser.py and myscripts/bird/spfs.py, `gen_addresses`, `ip_into_rid`,
--              `parse_route`: the addresses that the scripts expect of the routers, and the numbers read
--              back from them. Simulator holds the loop of myscripts/bird/helper/NtfTopoGen.cc that
--              gives the nodes their addresses, with counters of 64 bits.
--   Fib        fib_parser.py: the forwarding tables as data.
--   Collect    fib_parser.py, `collect_fibs`: a directory is a list of entries with the texts of their
--              files, `none` for one that is missing. `read_row` is one round of the inner loop,
--              `collect_process` of the outer one; `node_id` lives as long as the function. Printed says
--              what the dump of a table looks like.
--   Explore    fib_parser.py, `explore`: the search for all routes of a snapshot. `loop` is the inner
--              function, `follow_all` its loop over nexthops, `report_missing` the handler of the
--              `KeyError`. Walk says what a walk is, with no search.
--   Converge   fib_parser.py, `evaluate_convergence` from the collected tables on, and
--              `instant_of_convergence`.
--   Report     fib_parser.py: `evaluate_convergence` as a whole (`none` is its `(0, -1)`) and the main
--              program, with the entries of the argument as directories. Stored and Whole are about
--              what the report holds.
--   Gaps       udp_parser.py: the gaps in the pings of each source (`observe` is one round of the
--              loop of `local_gaps` for one source, `feed` for all), the failures they are assigned
--              to (Assign) and `converge_time`. A gap keeps its length in microseconds, where the
--              code stores a thousandth, which it only prints. `milliseconds` is exact where the
--              code's float division is: for differences below 2 ^ 53. Results is the main program.
--              Watched takes the pings of one source out of a log; First says which failure is the first
--              within a gap, with no index that moves.
--   Ntf        myscripts/bird/ntf_parser.py: the table of links with their two metrics (`add_link` is
--              one round of the loop, `extend` and `extend_reversed` its two cases for a pair that is
--              known) and the list of nodes. Output holds the rest of the script: the map file, the rows for
--              the simulator, the matrix, with the integers that are stored in it, and the check. `round`,
--              `format` and the count of connected components are parameters. OneWay is about files with one
--              line for each link, as fail_gen.py writes them.
--   TopologyFile  what the scripts share that read the lines of a topology file.
--   Generators ring.py and fm.py: the topology files of a ring and of a full mesh, as their lines
--              (`ring`, `mesh`) and as the text that is printed (`print_lines`).
--   Spf        myscripts/bird/spfs.py and misc/disconnect.py: the table of metrics and its
--              matrix, with `none` for `np.inf`, and the addresses that each router pings. What scipy
--              computes from the matrix is only printed; `dijkstra` is a parameter.
--   Failures   misc/fail_gen.py: `prune` is the loop that deletes from the list that it walks, by the
--              position that it has reached.
--   Comparison myscripts/bird/test.py: the links of the simulator against the topology file. The global
--              `metrics` is the state `Costs`; `read_config_line` is one round of the loop over a
--              configuration, `strike` the loop that removes the lines that were found.
--   Plots      misc/geant.py, misc/house.py and misc/viz.py: the recorded measurements and the figures and
--              graphs that are handed to matplotlib and graphviz.
--   Python     what the scripts use of Python: exceptions as values of `Outcome`, dictionaries as
--              association lists in the order of insertion, texts as lists of code points, `int`,
--              `%i` and `sorted`. `int` and `isdigit` know the ASCII digits and white space alone.
--   Prelude    shared names, tests, lists and integers over the native numbers.
--   Tests      the theorems at concrete inputs, and runs.
--
-- Floats have no definition here: `Python.Float.Floats` takes the type and the operations as a
-- parameter, with the law that the values that are read have a total order (none is NaN).
--
-- Bounds: `explore` gives its recursion a depth of the size of `reverse` plus one. A route visits no
-- router twice and each router behind the first is a value of `reverse`, so this depth is enough.
-- Python's own recursion limit is not modelled. `one_direction` gives its loop one round more than the
-- list has rows; each round goes one position further, so this is enough.
--
-- Not modelled: printing that is no result, and the plot at the end of udp_parser.py; and the code in
-- other languages, which drives ns-3 and containers, save for the addresses above.
mod Prelude
pub mod Python
pub mod Address
pub mod TopologyFile
pub mod Fib
pub mod Collect
pub mod Explore
pub mod Converge
pub mod Report
pub mod Gaps
pub mod Ntf
pub mod Spf
pub mod Comparison
pub mod Failures
pub mod Generators
pub mod Plots
mod Tests

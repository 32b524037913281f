-- ===== src/Tests.antt =====
-- The theorems at concrete inputs, and runs of the definitions.
mod Sample
mod Address
mod Assign
mod Collect
mod Explore
mod Converge
mod Gaps
mod Logged
mod Ntf
mod NtfOutput
mod NtfOneWay
mod Generators
mod Failures
mod Spf
mod Comparison
mod Report
mod Evaluated
mod Stored
mod Plots

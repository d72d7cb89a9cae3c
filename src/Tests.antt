-- ===== src/Tests.antt =====
-- Runs of the models on small inputs, and each theorem at an input that meets its hypotheses.
mod Regions
mod Alignments
mod Constraints
mod Sample
mod Disks
mod DiskRuns
mod Fats
mod Sizes
mod Layouts
mod Walks
mod Exceptions
mod Labels
mod Alignings
mod DosAligns
mod LabelDisks
mod Flags
mod Searches

-- ===== src/Runs.antt =====
-- The theorems at concrete inputs, and tests of the definitions.
mod Bytes
mod Files
mod Resumes
mod Searches
mod Downloads
mod Servers
mod Programs
mod Sorts
mod Diffs
mod Conversions
mod Completed
mod Filters

-- ===== src/Jobs.antt =====
-- The job control of src/jobs.c: the jobs, the table of jobs, and the list of dead processes.
pub mod Status
pub mod Job
pub mod Find
pub mod Pids
pub mod Exits
pub mod Codes
pub mod Table
pub mod Removal
pub mod Sweep
pub mod Last
pub mod Current
pub mod Add
pub mod Notice
pub mod Fine
pub mod Slots
pub mod Sane
pub mod Events
pub mod History
pub mod Removed
pub mod Spec
pub mod Names
pub mod Dead
pub mod Reap

-- ===== src/Sys.antt =====
-- The programs' view of the kernel and of libc, which the repository does not contain: a program
-- makes calls, and the environment answers each with a reply. `Calls` has the calls and replies,
-- `Monad` the programs, `Loops` the loops with their rules, `Traces` what a history of calls shows.
pub mod Calls
pub mod Monad
pub mod Loops
pub mod Steps
pub mod Traces
pub mod Exchange
pub mod Discipline

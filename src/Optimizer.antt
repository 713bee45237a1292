-- ===== src/Optimizer.antt =====
-- internal/optimizer: the options of a job, the arguments of the command line tools, the
-- inspection reports, and the calls of the tools.
pub mod Options
pub mod Inspection
pub mod Cli

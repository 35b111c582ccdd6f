-- ===== src/Analysis.antt =====
-- analysis: the worker that finds the tasks to analyse, and the analysis of one task.
pub mod Collapsed
pub mod Analyzer
pub mod Advisor
pub mod PollWorker

-- ===== src/Reports.antt =====
-- The repository's own tools (src/scripts): what they compute from the records of test and mutation runs,
-- without the files that they read and the text that they print.
pub mod Superfluity
pub mod Timeline

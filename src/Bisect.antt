-- ===== src/Bisect.antt =====
-- The binary search tools (binary_search_tool).
pub mod Searcher
pub mod SearchState

-- ===== src/Memory.antt =====
-- services/memory_service.py: `MemoryService`, the memory of resolved incidents.
--
-- The texts that are embedded are built as the code builds them; the vectors and the provider are
-- arguments, and so is Python's `str.lower`. An embedding that raises is none.
pub mod Quality
pub mod Index
pub mod Indexing
pub mod Search
pub mod Hits
pub mod Scores
pub mod Distances
pub mod Retrieval

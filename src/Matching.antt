-- ===== src/Matching.antt =====
-- Matching, packages/domain/src/matching: who is a candidate for a request, how candidates are
-- scored and ordered, and how the search widens while the request waits.
pub mod Number
pub mod Proficiency
pub mod Candidate
pub mod Relaxation
pub mod Skills
pub mod Scoring
pub mod Filters
pub mod Hash
pub mod Rank
pub mod Shortlist
pub mod Floors
pub mod Competence
pub mod Permanent
pub mod Order
pub mod Admitted
pub mod Accounted
pub mod Choice
pub mod Samples
mod Tests

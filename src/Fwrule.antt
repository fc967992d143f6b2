-- ===== src/Fwrule.antt =====
-- fwrule: the rule model, the containment of matches, the index over earlier rules and the analysers.
pub mod Rule
pub mod Postings
pub mod Index
pub mod Packet
pub mod Analyze
pub mod Checks
pub mod Samples
pub mod Tests

-- ===== src/Gov/Laws.antt =====
-- What holds of the proposals of Gov.
pub mod Votes
pub mod Tally
pub mod Major
pub mod Fresh
pub mod Encodings
pub mod Proposing
pub mod Voting
pub mod Pending
pub mod Opening
pub mod Isolation
pub mod Objects

-- ===== src/Planner.antt =====
-- controllers/a_star.c: the planner, which searches the grid for a path from the pose to the goal
-- with the lists of controllers/mapping.c, and sends its first points as waypoints.
pub mod Grid
pub mod Search
pub mod Chains
pub mod Spots
pub mod Neighbors
pub mod Bounded
pub mod Ends
pub mod Walks
pub mod Paths
pub mod Links
pub mod Routes
pub mod Seen
pub mod Complete
pub mod Whole
pub mod Exhausted
pub mod Command
pub mod Replan
pub mod Offer
pub mod Aims
pub mod Placed
pub mod Edge
pub mod Rounds
pub mod Requests
mod Tests

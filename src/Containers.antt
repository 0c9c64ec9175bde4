-- ===== src/Containers.antt =====
-- The bounded containers: a set of the most recent elements (src/mruset.h), and a map that makes room at
-- the lowest value (src/limitedmap.h).
pub mod MruSet
pub mod LimitedMap
mod Tests

-- ===== src/Expectations.antt =====
-- pkg/util/expectations: what a controller has written and has not yet seen in its cache.
-- The mutex of each store makes its methods atomic, so a method is one function on the store.
pub mod ResourceVersion
pub mod Scale
pub mod Update

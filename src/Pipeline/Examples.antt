-- ===== src/Pipeline/Examples.antt =====
-- The bounded loss at the bull call spread of the samples.

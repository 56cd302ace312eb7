-- ===== src/Parser/Started.antt =====
-- The platforms of a state that parser_system1.c made, after `pv_platforms_start` of platforms.c.

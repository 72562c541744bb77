-- ===== src/Tests/Numbers.antt =====
-- Integers and bytes in a registry that keeps what it is given.

-- ===== src/Prelude/Numerals/Tests.antt =====
-- x

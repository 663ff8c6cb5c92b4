-- ===== src/Arrange/Tests.antt =====
-- The split of 801 pixels with a gap of 10, by a ratio that takes a third.

-- ===== src/Upload/Indexes/Published.antt =====
-- What a published range index says.

-- ===== src/Parser/Ends.antt =====
-- src/parser.c: `parse_req` ends, its assertions hold and its copies fit, whatever was received.

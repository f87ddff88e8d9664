-- ===== src/Server/AccessLog/Accounted.antt =====
-- src/server.rs, `access_log` and the writer thread: what becomes of the lines, and of the drops.

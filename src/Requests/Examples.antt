-- ===== src/Requests/Examples.antt =====
-- The requests on a concrete server, which holds at most one secret and compares it whole.
mod Server
mod Runs

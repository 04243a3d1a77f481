-- ===== src/Realtime/Publisher/FailsFast.antt =====
-- realtime/_publisher.py: what the worker does with a job while the breaker is open.

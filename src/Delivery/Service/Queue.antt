-- ===== src/Delivery/Service/Queue.antt =====
-- Pressing send: what `Queue` promises about a second press, and what it refuses.

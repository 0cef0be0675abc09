-- ===== src/Security.antt =====
-- Secret redaction: src/loopgraph_supervisor/security/redaction.py, and what it does to the data of
-- an event.
pub mod Redaction
pub mod Payload

-- ===== src/TcpReceiver/Index.antt =====
-- The stream index that a receiver computes for a segment.

-- ===== src/Market.antt =====
-- Market data: internal/data/.
pub mod RingBuffer

-- ===== src/Cache/Promotion.antt =====
-- `Get` of an entry of the old generation, of cache.go.
use rustygo.Metrics.{Metrics}

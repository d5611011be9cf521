-- ===== src/Server/Metrics.antt =====
-- internal/server/metrics.go. A counter of the Prometheus library is a number, a labelled counter a
-- number for each combination of its labels, and of a histogram the number of observations is kept.
use ocsp.Base.{ℕ, ◌+◌, String, ◌==◌, ◌&&◌, if◌then◌else◌}
use ocsp.Base.Int.{ℤ, pos}

abbrev pub Vec1 : Type 0
Vec1 = String → ℕ

abbrev pub Vec2 : Type 0
Vec2 = String → String → ℕ

-- `WithLabelValues(a).Inc()`, and an observation of a histogram
abbrev pub inc1 : Vec1 → String → Vec1
inc1 f a x = if a == x then f x + 1 else f x

abbrev pub inc2 : Vec2 → String → String → Vec2
inc2 f a b x y = if a == x && b == y then f x y + 1 else f x y

-- `signer_days_left` is the last value that the gauge was set to. The gauge of the cache's entries is
-- kept in the cache, which alone sets it.
pub record Metrics : Type 0 where
  pub requests_total : Vec2
  pub request_duration : Vec1
  pub cache_hits : ℕ
  pub cache_misses : ℕ
  pub signer_days_left : ℤ
  pub source_requests : Vec2
  pub source_latency : Vec1
  pub source_retries : Vec1
  pub source_errors : Vec2

-- `NewMetrics`: every collector begins at zero.
abbrev pub new_metrics : Metrics
new_metrics = record {
  requests_total = λ _ _. 0;
  request_duration = λ _. 0;
  cache_hits = 0;
  cache_misses = 0;
  signer_days_left = pos 0;
  source_requests = λ _ _. 0;
  source_latency = λ _. 0;
  source_retries = λ _. 0;
  source_errors = λ _ _. 0;
}

abbrev pub record_request : String → String → Metrics → Metrics
record_request method status m = record m {
  requests_total = inc2 m.requests_total method status;
  request_duration = inc1 m.request_duration method;
}

abbrev pub record_source_request : String → String → Metrics → Metrics
record_source_request source_name result m = record m {
  source_requests = inc2 m.source_requests source_name result;
}

abbrev pub record_source_latency : String → Metrics → Metrics
record_source_latency source_name m = record m {
  source_latency = inc1 m.source_latency source_name;
}

abbrev pub record_source_retry : String → Metrics → Metrics
record_source_retry source_name m = record m { source_retries = inc1 m.source_retries source_name }

abbrev pub record_source_error : String → String → Metrics → Metrics
record_source_error source_name class m = record m {
  source_errors = inc2 m.source_errors source_name class;
}

abbrev pub record_cache_hit : Metrics → Metrics
record_cache_hit m = record m { cache_hits = m.cache_hits + 1 }

abbrev pub record_cache_miss : Metrics → Metrics
record_cache_miss m = record m { cache_misses = m.cache_misses + 1 }

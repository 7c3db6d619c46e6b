-- ===== src/Metrics.antt =====
-- internal/metrics/metrics.go.
use maxwell_go_spine.Prelude.{String, List, [], ◌∷◌}

-- A counter or a histogram, by its name, help text and labels; the buckets are prometheus's own.
pub record Metric : Type 0 where
  pub name : String
  pub help : String
  pub labels : List String

pub record Registry : Type 0 where
  pub gatherer : List Metric
  pub http_requests : Metric
  pub http_duration : Metric

abbrev http_requests : Metric
http_requests = record {
  name = "http_requests_total";
  help = "Total HTTP requests";
  labels = "method" ∷ "path" ∷ "status" ∷ [];
}

abbrev http_duration : Metric
http_duration = record {
  name = "http_request_duration_seconds";
  help = "Duration";
  labels = "method" ∷ "path" ∷ [];
}

-- Both metrics are registered with the new registry.
unfoldable pub new_registry : Registry
new_registry = record {
  gatherer = http_requests ∷ http_duration ∷ [];
  http_requests = http_requests;
  http_duration = http_duration;
}

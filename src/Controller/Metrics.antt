-- ===== src/Controller/Metrics.antt =====
-- controller/pkg/provider/metrics.go: the metrics of a node, and what is asked of them.
pub mod Integral
use supernetes.Prelude.{ℕ, ◌-◌, ◌/◌, min, String, List, [], ◌∷◌}
use supernetes.Prelude.Floats.{Floats}

-- `api.NodeStatus`, as it reaches the metrics
pub record Sample (F : Type 0) : Type 0 where
  pub cpu_load : F
  pub ws_bytes : ℕ

-- `metricsProvider`; times are nanoseconds since the zero time.
pub record MetricsProvider (F D : Type 0) : Type 0 where
  pub core_seconds : D
  pub working_set : D
  pub timestamp : ℕ
  pub load_avg : F

pub data MetricKind : Type 0 where
  counter gauge : MetricKind

-- `dto.MetricFamily`, with one metric
pub record MetricFamily (D : Type 0) : Type 0 where
  pub name : String
  pub help : String
  pub kind : MetricKind
  pub value : D
  pub timestamp_ms : ℕ

-- `time.Time.Sub`, which stops at the greatest duration
unfoldable pub sub : ℕ → ℕ → ℕ
sub now before = min (now - before) 9223372036854775807

-- `UnixMilli`, counted from the zero time
unfoldable pub unix_milli : ℕ → ℕ
unix_milli timestamp = timestamp / 1000000

module _ {F D : Type 0} (floats : Floats F D) where
  -- `NewMetricsProvider`; `zero_load` is the zero value of a float32.
  unfoldable pub new_metrics_provider : F → MetricsProvider F D
  new_metrics_provider zero_load = record {
    core_seconds = floats.nought;
    working_set = floats.nought;
    timestamp = 0;
    load_avg = zero_load;
  }

  -- `Update`, at the time `now`
  unfoldable pub update : ℕ → Sample F → MetricsProvider F D → MetricsProvider F D
  unfolding sub
  update now status m = record {
    core_seconds =
        floats.add m.core_seconds
          (floats.mul (floats.widen m.load_avg) (floats.seconds (sub now m.timestamp)));
    working_set = floats.of_uint status.ws_bytes;
    timestamp = now;
    load_avg = status.cpu_load;
  }

  unfoldable pub cpu_metric : MetricsProvider F D → MetricFamily D
  unfolding unix_milli
  cpu_metric m = record {
    name = "node_cpu_usage_seconds_total";
    help = "Cumulative cpu time consumed by the node in core-seconds";
    kind = counter;
    value = m.core_seconds;
    timestamp_ms = unix_milli m.timestamp;
  }

  unfoldable pub mem_metric : MetricsProvider F D → MetricFamily D
  unfolding unix_milli
  mem_metric m = record {
    name = "node_memory_working_set_bytes";
    help = "Current working set of the node in bytes";
    kind = gauge;
    value = m.working_set;
    timestamp_ms = unix_milli m.timestamp;
  }

  -- `GetMetricsResource` of controller/pkg/provider/handler.go
  unfoldable pub get_metrics_resource : MetricsProvider F D → List (MetricFamily D)
  unfolding cpu_metric mem_metric
  get_metrics_resource m = cpu_metric m ∷ mem_metric m ∷ []

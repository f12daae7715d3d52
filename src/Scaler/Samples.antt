-- ===== src/Scaler/Samples.antt =====
-- Test data: an inactive PodAutoscaler that has been idle for a minute.
use serving.Prelude.{◌*◌, true, false, none, some}
use serving.Prelude.Int.{pos}
use serving.Scaler.Defs.{inactive, Status, Autoscaler, Config, Cluster, second}

abbrev pub idle : Status
idle = record {
  activity = inactive;
  last_transition = 0;
  initialized = true;
  has_service_name = true;
  desired_scale = some (pos 0);
  actual_scale = some 1;
}

abbrev pub revision : Autoscaler
revision = record {
  reachable = true;
  min_scale = none;
  max_scale = none;
  initial_scale = none;
  progress_deadline = none;
  pod_retention = none;
  stable_window = pos (60 * second);
  always_burst = false;
  status = idle;
}

abbrev pub config : Config
config = record {
  enable_scale_to_zero = true;
  min_scale = 0;
  max_scale = 0;
  initial_scale = 1;
  allow_zero_initial_scale = false;
  progress_deadline = pos (600 * second);
  grace_period = pos (30 * second);
  pod_retention = pos 0;
}

abbrev pub cluster : Cluster
cluster = record {
  now = 60 * second;
  in_proxy_mode = true;
  proxy_for = pos (10 * second);
  probe = true;
  target = some (some 1);
  patch_ok = true;
}

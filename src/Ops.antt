-- ===== src/Ops.antt =====
-- internal/ops: the counters of metrics.go here, drain.go in Drain. The counters are `atomic.Int64`; each method is its atomic
-- additions, one caller at a time.
pub mod Drain
mod Shutdown
mod Tests
use chunk_gate.Prelude.{ℕ, ◌+◌, ◌-◌, Bool, ltb, leb, if◌then◌else◌}

pub record Metrics : Type 0 where
  pub requests_total : ℕ
  pub request_errors_total : ℕ
  pub active_requests : ℕ
  pub rejected_requests : ℕ
  pub active_uploads : ℕ
  pub uploads_total : ℕ
  pub upload_failures : ℕ
  pub uploaded_bytes : ℕ
  pub chunks_total : ℕ
  pub chunk_bytes : ℕ

abbrev pub new_metrics : Metrics
new_metrics = record {
  requests_total = 0;
  request_errors_total = 0;
  active_requests = 0;
  rejected_requests = 0;
  active_uploads = 0;
  uploads_total = 0;
  upload_failures = 0;
  uploaded_bytes = 0;
  chunks_total = 0;
  chunk_bytes = 0;
}

unfoldable pub start_request : Metrics → Metrics
start_request m = record m {
  requests_total = m.requests_total + 1;
  active_requests = m.active_requests + 1;
}

-- The function that `StartRequest` returns.
unfoldable pub end_request : ℕ → Metrics → Metrics
end_request status m = record m {
  active_requests = m.active_requests - 1;
  request_errors_total =
      if leb 400 status then m.request_errors_total + 1 else m.request_errors_total;
}

unfoldable pub reject_request : Metrics → Metrics
reject_request m = record m { rejected_requests = m.rejected_requests + 1 }

unfoldable pub start_upload : Metrics → Metrics
start_upload m = record m {
  uploads_total = m.uploads_total + 1;
  active_uploads = m.active_uploads + 1;
}

-- The function that `StartUpload` returns.
unfoldable pub end_upload : Bool → Metrics → Metrics
end_upload success m = record m {
  active_uploads = m.active_uploads - 1;
  upload_failures = if success then m.upload_failures else m.upload_failures + 1;
}

unfoldable pub observe_upload : ℕ → ℕ → Metrics → Metrics
observe_upload bytes chunks m = record m {
  uploaded_bytes = if ltb 0 bytes then m.uploaded_bytes + bytes else m.uploaded_bytes;
  chunk_bytes = if ltb 0 bytes then m.chunk_bytes + bytes else m.chunk_bytes;
  chunks_total = if ltb 0 chunks then m.chunks_total + chunks else m.chunks_total;
}

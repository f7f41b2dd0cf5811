-- ===== src/Api/Balance.antt =====
-- What `putObject` of internal/api/object_handlers.go leaves of the counters of uploads.
use chunk_gate.Prelude.{ℕ, ◌+◌, ◌≤◌, ◌≡◌, ◌⊎◌, Bool, true, false, Option, List, Text}
use chunk_gate.Prelude.Int.{ℤ}
use chunk_gate.Errors.{Context}
use chunk_gate.Ops.{Metrics, start_upload}
use chunk_gate.Ops.Drain.{Drain}
use chunk_gate.Chunker.Options.{Splitter}
use chunk_gate.Chunker.Stream.{FastCdc}
use chunk_gate.Chunker.Reader.{Reader}
use chunk_gate.Object.Blocks.{BlockStore}
use chunk_gate.Object.Service.{Request}
use chunk_gate.Api.Responses.{Response}
use chunk_gate.Api.Uploads.{Front, put_begun}

-- The counters of uploads.
abbrev pub tally : Metrics → ℕ × ℕ × ℕ
tally m = (m.active_uploads, m.uploads_total, m.upload_failures)

-- The status of a response goes with whether the upload succeeded.
abbrev Agrees : Bool × Response → Type 0
Agrees (true, r) = r.status ≡ 200
Agrees (false, r) = 400 ≤ r.status

-- The counters after an upload that was begun, and its status.
abbrev pub Counted : {B : Type 0} → Front B → Response → Front B → Type 0
Counted f r f' =
    (f'.server.metrics.uploads_total ≡ f.server.metrics.uploads_total + 1)
    × (((r.status ≡ 200) × (f'.server.metrics.upload_failures ≡ f.server.metrics.upload_failures))
        ⊎ ((400 ≤ r.status)
            × (f'.server.metrics.upload_failures ≡ f.server.metrics.upload_failures + 1)))

-- The counters after an upload that was refused, and its status.
abbrev pub Refused : {B : Type 0} → Front B → Response → Front B → Type 0
Refused f r f' =
    (r.status ≡ 503)
    × (f'.server.metrics.uploads_total ≡ f.server.metrics.uploads_total)
    × (f'.server.metrics.upload_failures ≡ f.server.metrics.upload_failures)
    × (f'.server.metrics.rejected_requests ≡ f.server.metrics.rejected_requests + 1)

-- An upload's handler ends what it begins, and counts it.
abbrev pub Balanced : {B : Type 0} → Front B → Response → Front B → Type 0
Balanced f r f' =
    (f'.drain ≡ f.drain)
    × (f'.server.metrics.active_uploads ≡ f.server.metrics.active_uploads)
    × (((f.drain.draining ≡ true) × Refused f r f') ⊎ ((f.drain.draining ≡ false) × Counted f r f'))

abbrev begun : {B : Type 0} → Front B → Front B
begun f = record {
  server = record f.server { metrics = start_upload f.server.metrics };
  drain = record f.drain { pending = f.drain.pending + 1 };
}

module _ {B : Type 0} (blocks : BlockStore B) (sha256_hex md5_hex : List ℕ → Text)
    (engine : FastCdc) (splitter : Splitter) (ctx : Context) (max_object_bytes content_length : ℤ)
    (q : Request) where
  abbrev after_begin : Front B → Option (Front B) → Response × Front B
  after_begin =
      put_begun blocks sha256_hex md5_hex engine splitter ctx max_object_bytes content_length q

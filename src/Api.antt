-- ===== src/Api.antt =====
-- internal/api: what the HTTP handlers decide from a request.
pub mod Responses
pub mod Ranges
mod RangeLaws
mod RangeHeaders
pub mod Parts
pub mod Objects
pub mod Routes
mod Guards
pub mod Cors
mod Preflight
pub mod Validation
mod BucketNames
mod Reads
pub mod Uploads
mod Balance
mod Tests

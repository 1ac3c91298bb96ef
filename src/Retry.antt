-- ===== src/Retry.antt =====
-- internal/kubernetes/drain: the retry strategies (retry_strategies.go) and the retry wall
-- (retry_wall.go), which keeps the count of drain failures of a node in the message of one of the
-- node's conditions. `parse_duration` stands for time.ParseDuration, `format_time` for
-- Time.Format(time.RFC822), and `float_to_int` for what Go's conversion of a float64 to int64
-- gives outside the range of int64, which the language leaves open. Logging is left out.
pub mod Message
pub mod Strategy
pub mod Wall
pub mod Delay
pub mod Count
pub mod Tests
pub use Message.*
pub use Strategy.*
pub use Wall.*

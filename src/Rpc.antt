-- ===== src/Rpc.antt =====
-- src/ct10api/ct10rpc_parse.c: the parser of the texts of procedure calls. `none` is an access
-- outside of an array.
pub mod Table
pub mod State
pub mod Parm
pub mod Parse
pub mod Free
pub mod Steps
pub mod Buffers
pub mod Classes
pub mod Spec
pub mod Expected
pub mod Types
pub mod Describe
pub mod Place
pub mod Words
pub mod Values
pub mod Ends
pub mod Outputs
pub mod Args
pub mod Labels
pub mod Runs
pub mod RoundTrip
pub mod Call
pub mod Blocks
pub mod Total
pub mod Sound
pub mod Functions
pub mod Starts
pub mod Dispatch
pub mod Levels
pub mod Safety
pub mod Bounds
mod Tests

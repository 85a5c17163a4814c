-- ===== src/Examples.antt =====
-- The theorems at concrete inputs, and runs of the model.
pub mod StateQueues
pub mod Pools
pub mod Operations
pub mod Channels
pub mod Addresses
pub mod Files
pub mod Searches
pub mod Swaps
pub mod Processes
pub mod Objects
pub mod Requests
pub mod Coroutines
pub mod Awaits
pub mod Sockets
pub mod Descriptors
pub mod Tasks
pub mod Schedulers

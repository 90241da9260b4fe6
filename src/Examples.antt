-- ===== src/Examples.antt =====
-- The theorems at concrete inputs, and tests of the definitions.
mod Merging
mod Limits
mod Parsing
mod Serving
mod Sending
mod Rotating
mod Watching
mod Guests
mod Mounts
mod Posting
mod Storing
mod Replicating
mod Cycling
mod Networked

-- ===== src/Examples.antt =====
-- The theorems at concrete inputs, and runs of the functions.
mod Paths
mod Ranges
mod Tables
mod Requests
mod Texts
mod Headers
mod Sessions
mod Aliases
mod Sends
mod Files
mod Pages
mod Programs
mod Loops

-- ===== src/Tests.antt =====
-- Runs of the definitions, and the theorems at concrete inputs.
mod Memory
mod Drives
mod Engine
mod Progress
mod Stream
mod Policies
mod Tools
mod Remote
mod Client
mod Planning
mod Service
mod Hosted
mod Checks
mod Release
mod RemoteDrive

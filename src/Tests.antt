-- ===== src/Tests.antt =====
-- Runs at concrete inputs: the theorems of the components applied to small states.
mod Cache
mod Async
mod Http
mod Queue
mod Upload
mod Support
mod Boot
mod Web
mod Disk
mod Redis

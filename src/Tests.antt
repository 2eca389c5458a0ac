-- ===== src/Tests.antt =====
-- Witnesses of the theorems at concrete inputs, and tests of the definitions.
mod Numbers
mod Hosts
mod Alerts
mod Tailing
mod Levels
mod Store
mod Http
mod Agents
mod Configs
mod Running
mod Demo
mod Client
mod Pages

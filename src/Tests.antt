-- ===== src/Tests.antt =====
-- The code on concrete inputs.
mod LinkedLists
mod Queues
mod Requests
mod Leds
mod Daemon
mod Clients
mod Heaps
mod Nifs
mod DataCalls
mod NetworkRequests
mod Configs

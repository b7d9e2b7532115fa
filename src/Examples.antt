-- ===== src/Examples.antt =====
-- A small host, rkt, image library and decoders, and rktlet's calls on them.
mod World
mod Runtime
mod RoundTrips
mod ImageTable
mod PodTable
mod Pods
mod Images
mod Cli
mod Names
mod Lifecycle
mod Listing
mod Services
mod Terminal
mod Daemon
mod ImageNames

-- ===== src/Tests.antt =====
-- Runs of the model on concrete inputs, and each theorem at an input where it applies.
mod Platform
mod FileSize
mod Hosting
mod ConfigSetup
mod Registry
mod Manager
mod Process
mod Worker
mod Numbers
mod Layout
mod Installed
mod Instance
mod Racing
mod System
mod TestService

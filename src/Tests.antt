-- ===== src/Tests.antt =====
-- Runs of the model at concrete inputs, and each theorem that has hypotheses at an input that
-- meets them. Time stamps are numbers here.
mod Daemon
mod Registry
mod Wire
mod Installer
mod Network
mod Window
mod Frontend
mod Usage
mod Files
mod Pipeline
mod Drawing
mod System
mod Loop

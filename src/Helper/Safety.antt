-- ===== src/Helper/Safety.antt =====
-- Theorems on the privileged helper service (helper/service.py).
mod Sound
mod Lines
mod Overtaken
mod Teardown
mod Connect
mod Run
mod Secrets
mod Finalize
mod Exit
mod Depth
mod Tests

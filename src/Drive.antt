-- ===== src/Drive.antt =====
-- The drive's motion permission:
-- integrations/ros2/simulation/native_drive/motion_permission.hpp.
pub mod Permission

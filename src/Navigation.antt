-- ===== src/Navigation.antt =====
-- Parts of the navigation integration, integrations/ros2.
pub mod Watch
pub mod Leaf
pub mod Closure
pub mod Obstacle

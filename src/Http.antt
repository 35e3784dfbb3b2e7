-- ===== src/Http.antt =====
-- internal/http: the API.
pub mod Problem
pub mod Uploads
pub mod Status
pub mod Window
pub mod Visualization
pub mod Router

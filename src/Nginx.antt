-- ===== src/Nginx.antt =====
-- The nginx module: nginx/ngx_http_pinpoint_module.c.
pub mod CString
pub mod Headers
pub mod Upstream
pub mod Log
pub mod Worker
pub mod Module

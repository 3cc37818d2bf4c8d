-- ===== src/Access/Routes/Table.antt =====
-- The table of routes that `init` adds (mes-backend/src/middlewares/perm_routes.cc).
use mes_cpp.Base.{List, [], ◌∷◌, String}

-- path and method
abbrev pub public_table : List (String × String)
public_table =
    ("/healthz", "GET")
    ∷ ("/metrics", "GET")
    ∷ ("/api/v1/auth/login", "POST")
    ∷ ("/api/v1/auth/captcha", "GET")
    ∷ ("/ws", "GET")
    ∷ ("/ws/dashboard", "GET")
    ∷ []

-- path, method and permission
abbrev pub route_table : List (String × String × String)
route_table =
    ("/api/v1/auth/refresh", "POST", "auth:bearer")
    ∷ ("/api/v1/auth/logout", "POST", "auth:bearer")
    ∷ ("/api/v1/auth/profile", "GET", "auth:bearer")
    ∷ ("/api/v1/auth/password", "PUT", "auth:bearer")
    ∷ ("/api/v1/system/users", "GET", "system:user:list")
    ∷ ("/api/v1/system/users/{id}", "GET", "system:user:query")
    ∷ ("/api/v1/system/users", "POST", "system:user:add")
    ∷ ("/api/v1/system/users/{id}", "PUT", "system:user:update")
    ∷ ("/api/v1/system/users/{id}", "DELETE", "system:user:delete")
    ∷ ("/api/v1/system/users/{id}/reset-password", "PUT", "system:user:reset")
    ∷ ("/api/v1/system/users/{id}/status", "PUT", "system:user:update")
    ∷ ("/api/v1/system/users/{id}/roles", "PUT", "system:user:assign")
    ∷ ("/api/v1/system/roles", "GET", "system:role:list")
    ∷ ("/api/v1/system/roles/{id}", "GET", "system:role:query")
    ∷ ("/api/v1/system/roles", "POST", "system:role:add")
    ∷ ("/api/v1/system/roles/{id}", "PUT", "system:role:update")
    ∷ ("/api/v1/system/roles/{id}", "DELETE", "system:role:delete")
    ∷ ("/api/v1/system/roles/{id}/permissions", "PUT", "system:role:assign")
    ∷ ("/api/v1/system/roles/{id}/data-scope", "PUT", "system:role:update")
    ∷ ("/api/v1/system/permissions/tree", "GET", "system:permission:list")
    ∷ ("/api/v1/system/departments/tree", "GET", "system:dept:list")
    ∷ ("/api/v1/system/departments", "POST", "system:dept:add")
    ∷ ("/api/v1/system/departments/{id}", "PUT", "system:dept:update")
    ∷ ("/api/v1/system/departments/{id}", "DELETE", "system:dept:delete")
    ∷ ("/api/v1/system/audit-logs", "GET", "system:audit:list")
    ∷ ("/api/v1/system/audit-logs/{id}", "GET", "system:audit:list")
    ∷ ("/api/v1/system/configs", "GET", "system:config:list")
    ∷ ("/api/v1/system/configs/{key}", "PUT", "system:config:update")
    ∷ ("/api/v1/production/work-orders", "GET", "prod:wo:list")
    ∷ ("/api/v1/production/work-orders/{id}", "GET", "prod:wo:query")
    ∷ ("/api/v1/production/work-orders", "POST", "prod:wo:add")
    ∷ ("/api/v1/production/work-orders/{id}", "PUT", "prod:wo:update")
    ∷ ("/api/v1/production/work-orders/{id}/schedule", "PUT", "prod:wo:schedule")
    ∷ ("/api/v1/production/work-orders/{id}/release", "PUT", "prod:wo:release")
    ∷ ("/api/v1/production/work-orders/{id}/start", "PUT", "prod:wo:start")
    ∷ ("/api/v1/production/work-orders/{id}/pause", "PUT", "prod:wo:pause")
    ∷ ("/api/v1/production/work-orders/{id}/complete", "PUT", "prod:wo:complete")
    ∷ ("/api/v1/production/work-orders/{id}/close", "PUT", "prod:wo:close")
    ∷ ("/api/v1/production/work-orders/{id}/cancel", "PUT", "prod:wo:cancel")
    ∷ ("/api/v1/production/work-orders/{id}/report", "POST", "prod:wo:report")
    ∷ ("/api/v1/production/lines", "GET", "prod:line:list")
    ∷ ("/api/v1/production/lines", "POST", "prod:line:add")
    ∷ ("/api/v1/production/lines/{id}", "PUT", "prod:line:edit")
    ∷ ("/api/v1/production/lines/{id}", "DELETE", "prod:line:del")
    ∷ ("/api/v1/production/lines/{id}/stations", "GET", "prod:station:list")
    ∷ ("/api/v1/production/processes", "GET", "prod:process:list")
    ∷ ("/api/v1/production/processes", "POST", "prod:process:add")
    ∷ ("/api/v1/production/processes/{id}", "PUT", "prod:process:edit")
    ∷ ("/api/v1/production/processes/{id}", "DELETE", "prod:process:del")
    ∷ ("/api/v1/production/products", "GET", "prod:product:list")
    ∷ ("/api/v1/production/products", "POST", "prod:product:add")
    ∷ ("/api/v1/production/products/{id}", "PUT", "prod:product:edit")
    ∷ ("/api/v1/production/products/{id}", "DELETE", "prod:product:del")
    ∷ ("/api/v1/production/plans", "GET", "prod:plan:list")
    ∷ ("/api/v1/production/plans", "POST", "prod:plan:add")
    ∷ ("/api/v1/iot/devices", "GET", "iot:device:list")
    ∷ ("/api/v1/iot/devices/{id}", "GET", "iot:device:query")
    ∷ ("/api/v1/iot/devices", "POST", "iot:device:add")
    ∷ ("/api/v1/iot/devices/{id}", "PUT", "iot:device:update")
    ∷ ("/api/v1/iot/devices/{id}", "DELETE", "iot:device:delete")
    ∷ ("/api/v1/iot/devices/{id}/status", "GET", "iot:device:query")
    ∷ ("/api/v1/iot/devices/{id}/sensors", "GET", "iot:sensor:list")
    ∷ ("/api/v1/iot/devices/{id}/sensors", "POST", "iot:sensor:add")
    ∷ ("/api/v1/iot/sensors/{id}", "PUT", "iot:sensor:update")
    ∷ ("/api/v1/iot/sensors/{id}", "DELETE", "iot:sensor:delete")
    ∷ ("/api/v1/iot/devices/{id}/realtime-data", "GET", "iot:data:query")
    ∷ ("/api/v1/iot/sensors/{id}/history", "GET", "iot:data:query")
    ∷ ("/api/v1/iot/alerts", "GET", "iot:alert:list")
    ∷ ("/api/v1/iot/alerts/{id}/acknowledge", "PUT", "iot:alert:handle")
    ∷ ("/api/v1/iot/alerts/{id}/resolve", "PUT", "iot:alert:resolve")
    ∷ ("/api/v1/iot/alerts/{id}/dismiss", "PUT", "iot:alert:dismiss")
    ∷ ("/api/v1/iot/devices/{id}/command", "POST", "iot:device:command")
    ∷ ("/api/v1/iot/tasks", "GET", "iot:task:list")
    ∷ ("/api/v1/iot/tasks", "POST", "iot:task:add")
    ∷ ("/api/v1/iot/tasks/{id}", "PUT", "iot:task:update")
    ∷ ("/api/v1/iot/tasks/{id}", "DELETE", "iot:task:delete")
    ∷ ("/api/v1/iot/tasks/{id}/toggle", "PUT", "iot:task:update")
    ∷ ("/api/v1/quality/standards", "GET", "qc:standard:list")
    ∷ ("/api/v1/quality/inspections", "POST", "qc:inspection:add")
    ∷ ("/api/v1/quality/inspections", "GET", "qc:inspection:list")
    ∷ ("/api/v1/quality/inspections/{id}", "GET", "qc:inspection:query")
    ∷ ("/api/v1/quality/defects", "GET", "qc:defect:list")
    ∷ ("/api/v1/quality/defects/{id}/disposition", "PUT", "qc:defect:handle")
    ∷ ("/api/v1/quality/statistics", "GET", "qc:stat:view")
    ∷ ("/api/v1/integration/erp/sync-orders", "POST", "integ:erp:sync")
    ∷ ("/api/v1/integration/erp/{id}/convert", "POST", "integ:erp:convert")
    ∷ ("/api/v1/integration/erp/report", "POST", "integ:erp:report")
    ∷ ("/api/v1/integration/wms/pick-request", "POST", "integ:wms:pick")
    ∷ ("/api/v1/integration/wms/stock-in", "POST", "integ:wms:inbound")
    ∷ ("/api/v1/integration/logs", "GET", "integ:log:list")
    ∷ ("/api/v1/integration/logs/{id}/retry", "POST", "integ:log:retry")
    ∷ []

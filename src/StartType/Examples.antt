-- ===== src/StartType/Examples.antt =====
-- Instances for server/starttype_windows.go.

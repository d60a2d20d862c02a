-- ===== src/Kubernetes/Targets.antt =====
-- What is sent to the API server to bring a workload up to date.

-- ===== src/Kubernetes.antt =====
-- backend/app/kubernetes/executor.py: the typed executor, with its guards before each request.
pub mod Executor
pub mod Guards

-- ===== src/K8s.antt =====
-- pkg/sandbox/k8sapi.go and poolk8s.go: what is asked of a Kubernetes cluster. `Cluster` is what the
-- code uses of client-go and of the system; `W` is the world behind it.
pub mod Cluster
pub mod Waiting
pub mod Backend
pub mod Served
pub mod Outcome
pub mod Holder
pub mod Fleet
mod Tests
pub mod Pods

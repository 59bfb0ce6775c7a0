-- ===== src/Client.antt =====
-- pkg/client: the generated client of the API group and its informers.
pub mod Rest
pub mod Connect
pub mod Clientset
pub mod Typed
pub mod Fake
pub mod Watching
pub mod Updates
pub mod Informers
pub mod Listers

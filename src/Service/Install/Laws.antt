-- ===== src/Service/Install/Laws.antt =====
-- What an installation of src/service.rs on Linux that succeeds has done.
use runnerctl.Shell.{Text}

-- ===== src/Cli/Init/Laws.antt =====
-- What `init` of src/main.rs leaves behind is a configuration that the manager accepts.
use Prim.Native.String.{String}
use runnerctl.Result.{Result}
use runnerctl.Shell.{Text}

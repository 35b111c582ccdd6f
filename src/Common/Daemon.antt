-- ===== src/Common/Daemon.antt =====
-- drop/common/Daemon.h and Daemon.cpp. The result of each `fork` is an argument, as is what `open`
-- returns: `none` for a negative number.
pub mod Streams
use mini_drop.Base.{ℕ, String, ltb, if◌then◌else◌, Option, none, some, List, [], ◌∷◌}

-- What `fork` returned in the process that goes on.
pub data Fork : Type 0 where
  fork_error in_parent in_child : Fork

pub data Call : Type 0 where
  forked : Call
  set_session : Call
  umask : ℕ → Call
  change_dir : String → Call
  open_null : Call
  duplicate : ℕ → ℕ → Call
  close_fd : ℕ → Call
  exits : ℕ → Call

-- Standard streams to `fd`, which is then closed if it is none of them.
unfoldable pub redirect : Option ℕ → List Call
redirect none = []
redirect (some fd) =
    duplicate fd 0 ∷ duplicate fd 1 ∷ duplicate fd 2 ∷ (if ltb 2 fd then close_fd fd ∷ [] else [])

-- `if (pid < 0) exit(1); if (pid > 0) exit(0);` and then the rest.
abbrev pub unless_ended : Fork → List Call → List Call
unless_ended fork_error rest = exits 1 ∷ []
unless_ended in_parent rest = exits 0 ∷ []
unless_ended in_child rest = rest

-- The calls that one process makes on its way through `Daemonize`.
unfoldable pub daemonize : Fork → Fork → Option ℕ → List Call
unfolding redirect
daemonize first second fd =
    forked
    ∷ unless_ended first (
        set_session
        ∷ forked
        ∷ unless_ended second (umask 0 ∷ change_dir "/" ∷ open_null ∷ redirect fd))

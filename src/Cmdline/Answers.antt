-- ===== src/Cmdline/Answers.antt =====
-- What the command line client does whatever its options are: it uses nothing that was not given, and
-- with --json it writes to stdout only.
use print3d.Prelude.{Bool, true}
use print3d.Cmdline.Options.{Options}
use print3d.Cmdline.Dispatch.{Result, finished, crashed, misused}
use print3d.Cmdline.Json.{on_stdout}
use print3d.Cmdline.Quiet.{Json}

module _ {S : Type 0} where
  -- Nothing went to stderr, as far as the client came.
  abbrev pub is_quiet : Result S → Bool
  is_quiet (finished d) = on_stdout d.1
  is_quiet crashed = true
  is_quiet misused = true

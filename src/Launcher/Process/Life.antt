-- ===== src/Launcher/Process/Life.antt =====
-- The life of the tool that src/main.cpp runs: in which order its calls can come.
use bazel_sandbox_windows.Base.{◌≡◌, List, [], ◌∷◌, true, false, not}
use bazel_sandbox_windows.Base.{WString, if◌then◌else◌, ◌==◌, ◌*◌, ◌%◌, ◌^◌}
use bazel_sandbox_windows.Launcher.Options.{Options}
use bazel_sandbox_windows.Launcher.Scopes.{wait_ms}
use bazel_sandbox_windows.Launcher.Process.{
  Event, create_suspended, copy_payload, assign_job, resume_thread, exit_code, write_stats, wait,
}
use bazel_sandbox_windows.Launcher.Process.{
  terminate_process, terminate_job, cleanup_write_overlay, close, Handle, Answers,
}
use bazel_sandbox_windows.Launcher.Process.{signaled, timed_out}

-- Where the tool is. `suspended`: created, the hooks have no manifest. `prepared`: the manifest is in the
-- process. `contained`: the process is in the job as well. `running`: resumed. `exited`: the wait saw its
-- end. `overdue`: the wait ran out. `killed`: terminated, its end is not awaited. `ended`: its end is
-- dealt with and the exit code is known. `reported`: the statistics are written.
pub data Stage : Type 0 where
  absent suspended prepared contained running exited overdue killed ended reported : Stage

-- What a call does to the tool, by what the operating system answers: a transition that needs an answer
-- is there only if that is the answer.
pub data Step (o : Options) (a : Answers) : Stage → Event → Stage → Type 0 where
  creates : a.created ≡ true → Step o a absent create_suspended suspended
  prepares : a.payload_copied ≡ true → Step o a suspended copy_payload prepared
  gives_up : a.payload_copied ≡ false → Step o a suspended (terminate_process 1) ended
  contains : a.has_job ≡ true → a.assigned ≡ true → Step o a prepared assign_job contained
  starts_in_job : Step o a contained resume_thread running
  starts_alone : a.has_job ≡ false → Step o a prepared resume_thread running
  finishes : a.first_wait ≡ signaled → Step o a running (wait (wait_ms o)) exited
  falls_overdue : a.first_wait ≡ timed_out → Step o a running (wait (wait_ms o)) overdue
  graces :
      (o.kill_delay_secs == 0) ≡ false
      → Step o a overdue (wait (o.kill_delay_secs * 1000 % 2 ^ 32)) overdue
  reads_exit : Step o a exited exit_code ended
  kills_tree : a.has_job ≡ true → a.terminated ≡ true → Step o a overdue (terminate_job 1) killed
  kills : a.has_job ≡ false → a.terminated ≡ true → Step o a overdue (terminate_process 1) killed
  settles : Step o a killed (wait 5000) ended
  reports : Step o a ended write_stats reported
  cleans : {root : WString} → Step o a reported (cleanup_write_overlay root) reported
  closes_early : {h : Handle} → Step o a ended (close h) ended
  closes : {h : Handle} → Step o a reported (close h) reported

pub data Run (o : Options) (a : Answers) : Stage → List Event → Stage → Type 0 where
  done : {s : Stage} → Run o a s [] s
  then_ :
      {s t u : Stage} {e : Event} {es : List Event}
      → Step o a s e t
      → Run o a t es u
      → Run o a s (e ∷ es) u

-- How far the tool gets: it is not created, it is terminated before its first instruction, or its
-- statistics are reported.
abbrev pub last_stage : Answers → Stage
last_stage a = if not a.created then absent else if not a.payload_copied then ended else reported

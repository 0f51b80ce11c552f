-- ===== src/Launcher/Process.antt =====
-- How src/main.cpp runs the tool: the check of the image before it, the calls of the operating system in
-- their order, and the exit code.
pub mod Life
use bazel_sandbox_windows.Base.{ℕ, ◌+◌, ◌*◌, ◌%◌, ◌^◌, ltb, leb, ◌==◌, List, [], ◌∷◌, ◌++◌}
use bazel_sandbox_windows.Base.{
  Bool, true, false, ◌&&◌, ◌||◌, not, if◌then◌else◌, Option, none, some,
}
use bazel_sandbox_windows.Base.{WString, length, take, drop, get_or, is_nil}
use bazel_sandbox_windows.Manifest.Bytes.{Bytes}
use bazel_sandbox_windows.Manifest.Bytes.Laws.{read_u32}
use bazel_sandbox_windows.Launcher.Options.{Options}
use bazel_sandbox_windows.Launcher.Scopes.{wait_ms}

abbrev pub image_file_machine_amd64 : ℕ
image_file_machine_amd64 = 0x8664

abbrev pub read_u16 : Bytes → ℕ → ℕ
read_u16 b p = get_or b p 0 + get_or b (p + 1) 0 * 256

-- `ReadFile` of `n` bytes at `p`, where it gives all of them.
abbrev pub read_at : Bytes → ℕ → ℕ → Option Bytes
read_at file p n = if leb (p + n) (length file) then some (take n (drop p file)) else none

-- The two reads of `PeMachine` at `e_lfanew`.
unfoldable pub coff_machine : Bytes → ℕ → Option ℕ
coff_machine file e_lfanew = elim (read_at file e_lfanew 4) [
  | none ↦ none
  | some sig ↦
      if not (read_u32 sig 0 == 0x4550)
      then none
      else elim (read_at file (e_lfanew + 4) 20) [ none ↦ none | some fh ↦ some (read_u16 fh 0) ]
]

-- `PeMachine`: the machine of the image, `none` where it returns false. `file` is the content of the
-- file, `none` where it cannot be opened; a seek to a negative offset fails.
unfoldable pub pe_machine : Option Bytes → Option ℕ
pe_machine none = none
pe_machine (some file) = elim (read_at file 0 64) [
  | none ↦ none
  | some dos ↦
      if not (read_u16 dos 0 == 0x5A4D)
      then none
      else if leb (2 ^ 31) (read_u32 dos 60)
      then none
      else coff_machine file (read_u32 dos 60)
]

-- The test of `wmain` that ends with exit code 3.
unfoldable pub is_refused : Option Bytes → Bool
is_refused file = elim (pe_machine file) [
  | none ↦ false
  | some machine ↦ not (machine == image_file_machine_amd64)
]

-- The handles that are closed.
pub data Handle : Type 0 where
  std_out_file std_err_file nul_in nul_out nul_err thread process job : Handle

-- The calls of `wmain` from the creation of the process on. A creation or a copy of the payload that
-- fails is none.
pub data Event : Type 0 where
  create_suspended copy_payload assign_job resume_thread exit_code write_stats : Event
  wait : ℕ → Event
  terminate_process terminate_job : ℕ → Event
  cleanup_write_overlay : WString → Event
  close : Handle → Event

-- What `WaitForSingleObject` returns for a process: `WAIT_OBJECT_0`, `WAIT_TIMEOUT` or `WAIT_FAILED`.
pub data Waited : Type 0 where
  signaled timed_out wait_failed : Waited

-- What the calls answer, and which handles are open. `assigned` and `terminated` are the results of
-- `AssignProcessToJobObject` and of the terminating call after a timeout, which the code does not read;
-- `first_wait` is the wait for the tool, and `child_exit` what `GetExitCodeProcess` gives.
pub record Answers : Type 0 where
  pub created : Bool
  pub payload_copied : Bool
  pub has_job : Bool
  pub assigned : Bool
  pub first_wait : Waited
  pub terminated : Bool
  pub child_exit : ℕ
  pub open_files : List Handle

-- `wr == WAIT_TIMEOUT`
abbrev pub is_timeout : Waited → Bool
is_timeout signaled = false
is_timeout timed_out = true
is_timeout wait_failed = false

-- The branch of a wait that timed out.
unfoldable pub on_timeout : Options → Answers → List Event
on_timeout o a =
    (if o.kill_delay_secs == 0 then [] else wait (o.kill_delay_secs * 1000 % 2 ^ 32) ∷ [])
    ++ (if a.has_job then terminate_job 1 else terminate_process 1) ∷ wait 5000 ∷ []

unfoldable pub close_all : List Handle → List Event
close_all [] = []
close_all (h ∷ hs) = close h ∷ close_all hs

-- From the statistics to the end.
unfoldable pub wind_up : Options → WString → Answers → List Event
wind_up o root a =
    write_stats
    ∷ ((if o.write_overlay && is_nil o.debug_path then cleanup_write_overlay root ∷ [] else [])
        ++ (close_all a.open_files
            ++ close thread ∷ close process ∷ (if a.has_job then close job ∷ [] else [])))

-- The process once it is created and holds the payload.
unfoldable pub run_contained : Options → WString → Answers → List Event
run_contained o root a =
    (if a.has_job then assign_job ∷ [] else [])
    ++ (resume_thread
        ∷ wait (wait_ms o)
        ∷ ((if is_timeout a.first_wait then on_timeout o a else exit_code ∷ [])
            ++ wind_up o root a))

-- The calls from `DetourCreateProcessWithDllExW` on.
unfoldable pub run_child : Options → WString → Answers → List Event
run_child o root a =
    if not a.created
    then []
    else if not a.payload_copied
    then create_suspended
      ∷ terminate_process 1
      ∷ close thread
      ∷ close process
      ∷ (if a.has_job then close job ∷ [] else [])
    else create_suspended ∷ copy_payload ∷ run_contained o root a

-- The exit code of `wmain` from there on.
unfoldable pub exit_status : Answers → ℕ
exit_status a =
    if not a.created
    then 2
    else if not a.payload_copied
    then 2
    else if is_timeout a.first_wait
    then 1
    else a.child_exit

-- ===== src/Lib.antt =====
-- bazel-sandbox-windows: a model of the sandbox launcher, its manifest, the write overlay and the
-- network hooks.
--
-- The launcher BazelSandbox.exe (src/main.cpp) turns its options into a file access manifest
-- (src/manifest_builder.{h,cpp}) and injects DetoursServices.dll into the tool that it runs. The
-- DLL reads the manifest: a tree of path fragments with a policy in each node. Its hooks ask for the
-- policy of a path and, with the write overlay on, src/overlay_engine.cpp sends the writes below the
-- source root to a private backing store and merges the two views. The launcher hands the network
-- policy down in an environment variable, which src/network_detours.cpp reads before it hooks Winsock.
--
-- Files:
--   Base        the names that all modules share: Boolean tests on numbers (Base/Tests), lists over the
--               native numbers (Base/Lists), wide strings as lists of UTF-16 units (Base/Text), laws of
--               the bit operations (Base/Bits).
--   Manifest    src/manifest_builder.{h,cpp}. Policy: the enums. Fragment: `NormalizeAndHashFragment`,
--               `IsSep` and the cut of a path in `AddPathFragments`. Canonical: `CanonicalizeForTree`.
--               Bytes: `PutU32`, `PatchU32`, `PutPaddedAnsi` and the padded path blocks. Tree: `Node`,
--               the descent of `AddPathFragments`, the scope operations and `Finalize`. Buckets: the
--               hash table of `SerializeNode`. Builder: the class with its setters, `AddRootScope`,
--               `AddScope`, `AddNodeScope`, `SerializeNode` and `Build`.
--   Overlay     src/overlay_engine.{h,cpp}. Globals: the flags and roots and what is asked of a
--               `PolicyResult`. Paths: `OverlayBackingPath`, `ReverseOverlayFinalPath` and the path
--               helpers. Disk: the file system as a record of an unknown state. Resolve:
--               `EnsureBackingParentDirs`, `ResolveOverlayOpenPath`, `ResolveOverlayDelete`,
--               `ResolveOverlayRenameDest`, `ResolveOverlayProbePath`, the working directory and the
--               reverse maps. Records: the records of `NtQueryDirectoryFile` as bytes, what is stored
--               in one and how a reader follows them. Enumeration: `IsEnumChildVisible`, the name
--               filters, `ListBackingChildren`, `EnsureOverlayEnumSnapshot`, `CaptureOverlayEnumFilter`
--               and `NextOverlayFindDataW`, with children Insert (`InsertOverlayEntries`), Filter
--               (`FilterDirectoryInformation` and the two loops that call it) and FindFirst
--               (`TrySynthesizeOverlayFindFirstW`, `TryAppendOverlayFindDataW`).
--   Launcher    src/main.cpp. Options: `Options`, `ExpandArguments` and `ParseOptions`, with `Die` and the
--               usage text as outcomes. Quoting: `EscapeArg`, `IsCmdExe` and `BuildChildCommandLine`.
--               Outputs: `IsStrictlyUnder`, `ParentDir` and the directories above the outputs. Scopes:
--               the flags and scopes that `wmain` puts in the manifest, the payload wrapper and the
--               wait. Stats: `PutVarint`, `PutInt64Field` and the bytes of `WriteStats`. Process: `PeMachine`
--               and the calls of `wmain` from the creation of the process on, as a list of events.
--               Backing: `SetupWriteOverlayRoot`, `RemoveTreeRecursive` and `CleanupWriteOverlay`.
--   Network     src/network_detours.{h,cpp}: the tests on addresses and names, the eight Winsock hooks
--               and `InitializeAndAttachNetworkDetours`.
--   Tests       runs of the definitions, a small disk, and the theorems at concrete inputs.
--   The children of a module hold its proofs and are named for what they prove.
--
-- State is passed on explicitly: a `ManifestBuilder` is a record and each setter returns the new one;
-- a function that changes the disk returns the disk's new state. `none` is a `false` result or a null
-- pointer. A node's `std::map` of children is a list in the order of the keys.
--
-- Fuel: the search for a free bucket in `SerializeNode` has no bound in the code. It is given as many
-- rounds as there are buckets, which reaches a free bucket whenever there is one, and there is one as
-- long as the tree has less than 2 ^ 28 children in a node; a tree of less than 4 GB has fewer. The walk
-- from an output up to the working directory is given as many rounds as its first path has
-- characters, and `PutVarint` ten, which is enough for 64 bits. `FilterDirectoryInformation` is given a
-- round for each byte, which is enough for a chain whose records do not overlap. The loops that query
-- again take their fuel as an argument; two more than the batches left in the scan are enough. Every
-- other loop is structural recursion.
--
-- Parameters: `GetFullPathNameW`, `towupper`, the folding of `_wcsnicmp`, `WantsWriteAccess` and
-- `PolicyResult::Initialize` of the vendored engine, the file system, Winsock and the rest of the
-- operating system as the launcher calls it (`System`). What a theorem needs of them is among its
-- hypotheses; `IsLocal` is what is asked of `CreateDirectoryW` and `CopyFileW`, where two paths that
-- differ may name one file, `IsSort` of `std::sort`, `IsScan` of `NtQueryDirectoryFile` without
-- `SL_RESTART_SCAN`, and `IsObserved` of `WSASetLastError`.
--
-- Not modelled: the standard handles, the creation of the job, the search for the DLL and the debug
-- log of src/main.cpp, each a call or two of the operating system; the vendored engine under
-- vendor/, the Detours library under third_party/, the tests; the re-entrancy guard and the
-- preservation of the last error around each resolution, which touch no path.
pub mod Base
pub mod Manifest
pub mod Overlay
pub mod Launcher
pub mod Network
mod Tests

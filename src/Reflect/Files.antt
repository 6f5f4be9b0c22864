-- ===== src/Reflect/Files.antt =====
-- The directories that reflect/WorkReflector.cpp works on, each as the names and the contents of
-- its files, and the commands `mv -f` and `unlink` on them.
pub mod Laws
use others.Base.{
  ℕ, Bool, true, false, ◌&&◌, ◌==◌, if◌then◌else◌, List, [], ◌∷◌, Option, none, some, Bytes,
  bytes_eq,
}
use others.Base.Int.{ℤ, pos, negsuc}

abbrev pub Directory : Type 0
Directory = List (Bytes × Bytes)

unfoldable pub contents_of : Bytes → Directory → Option Bytes
contents_of k [] = none
contents_of k ((j, v) ∷ d) = if bytes_eq j k then some v else contents_of k d

unfoldable pub write_file : Bytes → Bytes → Directory → Directory
write_file k v [] = (k, v) ∷ []
write_file k v ((j, w) ∷ d) = if bytes_eq j k then (k, v) ∷ d else (j, w) ∷ write_file k v d

unfoldable pub unlink_file : Bytes → Directory → Directory
unlink_file k [] = []
unlink_file k ((j, v) ∷ d) =
    let rest = unlink_file k d in if bytes_eq j k then rest else (j, v) ∷ rest

-- How a command given to system() ends: its result, WIFEXITED and WEXITSTATUS of it.
pub record CommandEnd : Type 0 where
  pub result : ℤ
  pub if_exited : Bool
  pub exit_status : ℕ

abbrev is_zero : ℤ → Bool
is_zero (pos n) = n == 0
is_zero (negsuc n) = false

-- The condition that CallOcReflection and MoveIntoBackup put on a command.
abbrev pub is_success : CommandEnd → Bool
is_success e = is_zero e.result && e.if_exited && e.exit_status == 0

-- What is left after a command that moves files: whether all went well, and the two directories.
pub record Moved : Type 0 where
  pub ok : Bool
  pub from : Directory
  pub to : Directory

-- `mv -f` of one file. A command that fails, as it does when there is no such file, moves nothing.
unfoldable pub move_file : CommandEnd → Bytes → Directory → Directory → Moved
move_file e name from to = elim (contents_of name from) [
  | none ↦ record { ok = false; from = from; to = to }
  | some v ↦
      if is_success e
      then record { ok = true; from = unlink_file name from; to = write_file name v to }
      else record { ok = false; from = from; to = to }
]

-- The loop of MoveIntoBackup over the names of the polled files: it stops at the first failure.
unfoldable pub move_all : (Bytes → CommandEnd) → List Bytes → Directory → Directory → Moved
move_all ends [] from to = record { ok = true; from = from; to = to }
move_all ends (n ∷ ns) from to =
    let m = move_file (ends n) n from to in
    let rest = move_all ends ns m.from m.to in if m.ok then rest else m

-- ===== src/RaiiFsEntry.antt =====
-- include/client/RAIIFSEntry.hpp: the owner of a path, which removes it if it is told to. An object
-- that is moved from keeps nothing to remove.
use drop_file.Common.{Bool, false, Bytes}

pub record RaiiFsEntry : Type 0 where
  pub path : Bytes
  pub should_remove : Bool

-- The move constructor and the move assignment: the target, and what is left of the source. What the
-- target was before is given up, not removed.
abbrev pub move_from : RaiiFsEntry → RaiiFsEntry × RaiiFsEntry
move_from source = (source, record source { should_remove = false })

-- ===== src/Tests/Sender.antt =====
-- The sending client on a directory with one file.
use drop_file.Tests.Delivering.{two_at_hand}
use drop_file.Tests.Hashing.{copies}
use drop_file.Tests.Values.{values}
use drop_file.Tests.Codec.{codec}
use drop_file.Tests.Wire.{wire}
use drop_file.DropFileSendClient.Removes.{IsTree}
use drop_file.DropFileSendClient.Cleans.{IsClean, run_sending_lem}
use drop_file.DropFileSendClient.Whole.{Machine, Sender, archive_path, run_sending}
use drop_file.Outcome.{Leaves}
use drop_file.ArchiveManager.{entry, join_paths, regular_file, no_entries}
use drop_file.Common.{
  ◌≡◌, refl, sym, ap, Bool, true, false, Option, none, some, [], ◌∷◌, ◌==◌, ◌&&◌, arith,
  if◌then◌else◌, Bytes,
}

abbrev name : Bytes
name = 97 ∷ []

-- A path lies below another one that it begins with.
abbrev starts_with : Bytes → Bytes → Bool
starts_with [] q = true
starts_with (b ∷ d) [] = false
starts_with (b ∷ d) (c ∷ q) = (b == c) && starts_with d q

abbrev machine : Machine
machine = record {
  sender_tmp_dir = 116 ∷ [];
  filename = λ path. path;
  directory = λ _ _. some (entry name (regular_file (some (7 ∷ 8 ∷ []))) no_entries);
  exists = λ _ _. false;
  remove_all = λ path files q. if starts_with path q then none else files q;
  create_directories = λ _ files. some files;
  what = [];
}

abbrev small_client : Sender
small_client = record {
  socket = record { incoming = []; outgoing = []; room = 300 };
  files = λ _. none;
}

starts_with_trans :
    (d p q : Bytes) → starts_with d p ≡ true → starts_with p q ≡ true → starts_with d q ≡ true
starts_with_trans [] p q h k = refl
starts_with_trans (b ∷ d) [] q h k = cc
starts_with_trans (b ∷ d) (c ∷ p) [] h k = cc
starts_with_trans (b ∷ d) (c ∷ p) (e ∷ q) h k = let rest = starts_with_trans d p q in ground arith

made_files :
    (files made : Bytes → Option Bytes) (q : Bytes) → some files ≡ some made → made q ≡ files q
made_files files made q e = let k : files ≡ made = cc in sym (ap (λ f. f q) k)

abbrev tree : IsTree machine
tree = record {
  under = starts_with;
  removes = λ d q files. refl;
  creates = λ d q files made e. made_files files made q e;
  under_trans = starts_with_trans;
}

inside : starts_with (116 ∷ []) (archive_path machine name) ≡ true
unfolding join_paths
inside = refl

run_sending_lem_example :
    Leaves
      (IsClean machine tree wire values copies codec 4 two_at_hand name inside small_client.files)
      (run_sending machine wire values copies codec 4 two_at_hand 4 name small_client)
run_sending_lem_example =
    run_sending_lem machine tree wire values copies codec 4 two_at_hand name inside
      small_client.files 4 small_client refl

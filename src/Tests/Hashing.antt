-- ===== src/Tests/Hashing.antt =====
-- The hash of a small file, the arguments of the client, and lists of words.
use drop_file.Common.{
  ◌<◌, ◌≡◌, sym, ◌↔◌, true, false, some, List, [], ◌∷◌, ◌++◌, map, Bytes, text, length, All,
}
use drop_file.Result.{ok}
use drop_file.ClientArgParser.{Stripped, remove_trailing_slashes, remove_trailing_slashes_lem}
use drop_file.JsonWords.{IsWord, extract_words, extract_words_iff}
use drop_file.DropFileReceiveClient.{Client}
use drop_file.Utils.Hash.{Digest}

pub some-eq : (a b : Bytes) → some a ≡ some b → a ≡ b
some-eq a b e = cc

-- The hash of some bytes is these bytes.
abbrev pub copies : Digest
copies = record {
  Context = Bytes;
  new_context = some [];
  init = λ c. some [];
  update = λ bytes c. some (c ++ bytes);
  finish = λ c. some c;
  given = λ c. c;
  digest = λ bytes. bytes;
  init_lem = λ c d e. sym (some-eq [] d e);
  update_lem = λ bytes c d e. sym (some-eq (c ++ bytes) d e);
  finish_lem = λ c hash e. sym (some-eq c hash e);
}

abbrev bytes : Bytes
bytes = 171 ∷ 3 ∷ []

abbrev holder : Client
holder = record {
  socket = record { incoming = []; outgoing = []; room = 0 };
  files = λ q. some bytes;
  interaction = [];
  status = λ q. some false;
  opens = λ q. true;
}

remove_trailing_slashes_lem_example :
    Stripped (text "dir//") (remove_trailing_slashes (text "dir//"))
remove_trailing_slashes_lem_example = remove_trailing_slashes_lem (text "dir//")

abbrev two_words : List Bytes
two_words = text "able" ∷ text "two" ∷ []

extract_words_iff_example :
    (extract_words (text "nouns") (some (some (map some two_words))) ≡ ok two_words) ↔ (
      (some (some (map some two_words)) ≡ some (some (map some two_words)))
      × (0 < length two_words)
      × All IsWord two_words)
extract_words_iff_example =
    extract_words_iff (text "nouns") (some (some (map some two_words))) two_words

-- ===== src/DropFileSendClient/Announces.antt =====
-- DropFileSendClient::sendFSEntryMetadata of a file that is no directory, on a server that answers with
-- a code.
use drop_file.DropFileSendClient.Code.{get_receive_code_from_server_lem}
use drop_file.DropFileSendClient.Whole.{
  Machine, Sender, announce, compress_if_necessary, guarded, message_with, send_fs_entry_metadata,
}
use drop_file.RaiiFsEntry.{RaiiFsEntry}
use drop_file.InitSessionMessage.{code_words_key, create_send_message, send_fields}
use drop_file.Json.{JsonLib, Scalar}
use drop_file.Network.{Net}
use drop_file.Socket.{buffer_size}
use drop_file.Socket.Framing.{chunks, frame, frames, send_lem, written}
use drop_file.Socket.Receive.{left}
use drop_file.Utils.Hash.{
  Digest, IsUtilsException, binary_to_human_readable, calculate_file_hash, calculate_file_hash_lem,
}
use drop_file.Zstd.{Library}
use drop_file.Outcome.{Ensures, Ensures-bind, Exception, Outcome, done, thrown, unfinished}
use drop_file.Common.{ℕ, ◌≤◌, ◌≡◌, refl, true, false, none, some, [], ◌∷◌, ◌++◌, Bytes, length}

Ensures-guarded {ℓ} :
    {A : Type ℓ} (machine : Machine) (E : Exception → Type 0) (P : A → Sender → Type 0)
    (e : RaiiFsEntry) (o : Outcome Sender A)
    → Ensures E P o
    → Ensures E P (guarded machine e o)
Ensures-guarded machine E P e (done a s) h = h
Ensures-guarded machine E P e (thrown x s) h = h
Ensures-guarded machine E P e unfinished h = h

module _ {J : Type 0} (machine : Machine) (net : Net) (json : JsonLib J) (evp : Digest) where
  -- What the client says of a file.
  abbrev pub metadata_of : Bytes → Bytes → J
  metadata_of path file = json.object (
      send_fields json (machine.filename path) (length file)
        (binary_to_human_readable (evp.digest file)) false)

  hashed :
      (path file : Bytes) (s : Sender) (o : Outcome (Unit {0}) Bytes)
      → Ensures IsUtilsException (λ h _. h ≡ binary_to_human_readable (evp.digest file)) o
      → Ensures IsUtilsException
          (λ j u. (j ≡ metadata_of path file) × (u ≡ s))
          (message_with machine net json evp path false true file o s)
  unfolding create_send_message
  hashed path file s (done h u) e = rw e (refl, refl)
  hashed path file s (thrown x u) e = e
  hashed path file s unfinished e = e

  module _ (path file code t response rest : Bytes) (s : Sender)
      (there : machine.exists path s ≡ true) (holds : s.files path ≡ some file)
      (dumped : json.dump (metadata_of path file) ≡ some t)
      (answers : json.dump (json.object ((code_words_key, Scalar.string code) ∷ []))
        ≡ some response)
      (short : length response ≤ buffer_size) (at : s.socket.incoming ≡ frame response ++ rest)
      (room : length (frames (chunks t)) ≤ s.socket.room) where
    -- The client behind its message and the server's answer.
    abbrev pub registered : Sender
    registered = record s { socket = left rest (written (frames (chunks t)) s.socket) }

    announce-Ensures :
        Ensures IsUtilsException
          (λ c u. (c ≡ code) × (u ≡ registered))
          (announce machine net json evp path false s)
    unfolding announce
    announce-Ensures =
        rw (there, holds)
          (Ensures-bind IsUtilsException (λ j u. (j ≡ metadata_of path file) × (u ≡ s)) _
            (message_with machine net json evp path false true file
              (calculate_file_hash evp path (some file) tt) s)
            _
            (hashed path file s (calculate_file_hash evp path (some file) tt)
              (calculate_file_hash_lem evp path file))
            (λ j u (said, same).
              rw
                (
                  said,
                  same,
                  dumped,
                  send_lem net t s.socket room,
                  get_receive_code_from_server_lem net json machine.what code response rest
                      (written (frames (chunks t)) s.socket) answers short at,
                )
                (refl, refl)))

    abbrev pub Announced : RaiiFsEntry × Bytes → Sender → Type 0
    Announced p u = (p ≡ (record { path = path; should_remove = false }, code)) × (u ≡ registered)

    -- It returns the path itself, which is not to be removed, and the code; or OpenSSL fails.
    pub send_fs_entry_metadata-Announced :
        (z : Library) (calls : ℕ)
        → machine.directory path s ≡ none
        → Ensures IsUtilsException Announced
            (send_fs_entry_metadata machine net json evp z calls path s)
    unfolding send_fs_entry_metadata compress_if_necessary
    send_fs_entry_metadata-Announced z calls plain = rw plain (
        Ensures-guarded machine IsUtilsException Announced
          (record { path = path; should_remove = false }) _
          (Ensures-bind IsUtilsException (λ c u. (c ≡ code) × (u ≡ registered)) Announced
            (announce machine net json evp path false s) _ announce-Ensures
            (λ c u (same, now). (rw same refl, now))))

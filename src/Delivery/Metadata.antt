-- ===== src/Delivery/Metadata.antt =====
-- What the clients and the server make of the metadata of a file.
use drop_file.DropFileReceiveClient.{Client, exists}
use drop_file.DropFileReceiveClient.Receives.{Offers}
use drop_file.DropFileReceiveClient.Whole.{Machine, receive_path}
use drop_file.InitSessionMessage.{send_fields, filename_key, file_hash_key, is_compressed_key}
use drop_file.InitSessionMessage.RoundTrip.{string_at-object, size_at-object}
use drop_file.Json.{JsonLib, assigned}
use drop_file.Network.{Net}
use drop_file.ServerSideClientSession.Relays.{Announces}
use drop_file.Socket.{buffer_size}
use drop_file.Socket.Framing.{frame, frames, chunks, chunks-small, IsChunk}
use drop_file.Utils.Hash.{Digest, binary_to_human_readable}
use drop_file.Common.{
  ℕ, ◌^◌, ◌≤◌, ◌<◌, ◌≡◌, refl, ap, ◌∙◌, Bool, true, false, some, [], ◌∷◌, append-nil, arith, Bytes,
  bytes_eq, length,
}

pub chunks-one : (t : Bytes) → IsChunk t → chunks t ≡ t ∷ []
chunks-one [] h = absurd (omega (arith, h.0))
chunks-one (x ∷ d) h = chunks-small x d h.1

module _ {J : Type 0} (net : Net) (json : JsonLib J) (evp : Digest) (machine : Machine) where
  -- What a sending client says of a file.
  abbrev pub metadata : Bytes → Bytes → Bool → J
  metadata filename file b =
      json.object
        (send_fields json filename (length file) (binary_to_human_readable (evp.digest file)) b)

  pub metadata-Announces :
      (filename file t : Bytes) (b : Bool)
      → json.dump (metadata filename file b) ≡ some t
      → length file < 2 ^ 64
      → 0 < length file
      → Announces net json (metadata filename file b) t (length file)
  unfolding assigned bytes_eq
  metadata-Announces filename file t b dumped fits some_bytes =
      let hash = binary_to_human_readable (evp.digest file) in
      let fs = send_fields json filename (length file) hash b in
      record {
        dumped = dumped;
        named = (filename, string_at-object json filename_key fs filename refl);
        sized = size_at-object json fs (length file) fits refl;
        not_empty = some_bytes;
      }

  pub metadata-Offers :
      (filename file t : Bytes) (b : Bool) (c : Client)
      → json.dump (metadata filename file b) ≡ some t
      → length t ≤ buffer_size
      → length file < 2 ^ 64
      → 0 < length file
      → (space : ℕ) → machine.free b ≡ some space
      → length file ≤ space
      → exists filename c ≡ some false
      → exists (receive_path machine b filename) c ≡ some false
      → c.opens (receive_path machine b filename) ≡ true
      → Offers net json evp machine t filename file b c
  unfolding assigned bytes_eq
  metadata-Offers filename file t b c dumped short fits some_bytes space known free new_name
        new_path opens =
      let hash = binary_to_human_readable (evp.digest file) in
      let fs = send_fields json filename (length file) hash b in
      record {
        j = metadata filename file b;
        short = short;
        parsed = json.parse-dump fs t dumped;
        named = string_at-object json filename_key fs filename refl;
        compressed = rw (json.find-object is_compressed_key fs) (json.get_bool-boolean b);
        sized = size_at-object json fs (length file) fits refl;
        hashed = string_at-object json file_hash_key fs hash refl;
        not_empty = some_bytes;
        space = space;
        known = known;
        fits = free;
        new_name = new_name;
        new_path = new_path;
        opens = opens;
      }

pub frames-one : (d : Bytes) → IsChunk d → frames (chunks d) ≡ frame d
unfolding frames
frames-one d h = ap frames (chunks-one d h) ∙ append-nil (frame d)

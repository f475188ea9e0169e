-- ===== src/DropFileReceiveClient/Hashes.antt =====
-- validateFileHash: what it says of the received file.
use drop_file.Utils.Hash.{
  calculate_file_hash_lem, calculate_file_hash_unopened, binary_to_human_readable, IsUtilsException,
}
use drop_file.Common.{
  ◌≡◌, refl, sym, ◌∙◌, inl, inr, none, some, Bool-cases, Bytes, bytes_eq, bytes_eq→eq,
}
use drop_file.Outcome.{
  Ensures-weaken, Ensures-settled, Ensures-bind, Ensures, utils_exception,
  drop_file_receive_exception, settled,
}
use drop_file.DropFileReceiveClient.{
  calculate_file_hash, Client, Digest, Exception, validate_file_hash,
}

abbrev pub IsHashException : Exception → Type 0
IsHashException (utils_exception t) = Unit {0}
IsHashException (drop_file_receive_exception t) = Unit {0}
IsHashException _ = ⊥

IsUtilsException→IsHashException : (e : Exception) → IsUtilsException e → IsHashException e
IsUtilsException→IsHashException (utils_exception t) h = tt
IsUtilsException→IsHashException _ h = absurd h

-- validateFileHash ends, and changes nothing: by a UtilsException where OpenSSL fails, by a
-- DropFileReceiveException, or else the hash of the whole received file has the expected text.
pub validate_file_hash_lem :
    (evp : Digest) (path expected content : Bytes) (c : Client)
    → c.files path ≡ some content
    → Ensures IsHashException
        (λ _ d. (d ≡ c) × (binary_to_human_readable (evp.digest content) ≡ expected))
        (validate_file_hash evp path expected c)
unfolding validate_file_hash
validate_file_hash_lem evp path expected content c file =
    let o = calculate_file_hash evp path (some content) tt in
    let IsHash : Bytes → Type 0 = λ h. h ≡ binary_to_human_readable (evp.digest content) in
    rw file (
      Ensures-bind IsHashException (λ h d. IsHash h × (d ≡ c)) _ (settled (λ _. c) o) _
        (Ensures-settled IsHashException (λ h _. IsHash h) _ (λ _. c) o
          (Ensures-weaken IsUtilsException IsHashException (λ h _. IsHash h) o
            (calculate_file_hash_lem evp path content) IsUtilsException→IsHashException)
          (λ h u k. (k, refl)))
        (λ h d (k, same). elim (Bool-cases (bytes_eq h expected)) [
          | inl e ↦ rw e (same, sym k ∙ bytes_eq→eq h expected e)
          | inr e ↦ rw e tt
        ]))

-- A file that could not be opened does not pass.
pub validate_file_hash_unopened :
    (evp : Digest) (path expected : Bytes) (c : Client) (P : Unit {0} → Client → Type 0)
    → c.files path ≡ none
    → Ensures IsHashException P (validate_file_hash evp path expected c)
unfolding validate_file_hash
validate_file_hash_unopened evp path expected c P file =
    let o = calculate_file_hash evp path none tt in
    rw file (
      Ensures-bind IsHashException (λ h d. ⊥) P (settled (λ _. c) o) _
        (Ensures-settled IsHashException (λ h _. ⊥) _ (λ _. c) o
          (Ensures-weaken IsUtilsException IsHashException (λ h _. ⊥) o
            (calculate_file_hash_unopened evp path (λ h _. ⊥)) IsUtilsException→IsHashException)
          (λ h u k. k))
        (λ h d k. absurd k))

-- ===== src/DropFileReceiveClient/Answers.antt =====
-- DropFileReceiveClient::getServerResponse: which responses are accepted, and what the others throw.
use drop_file.Result.{Result, err, ok}
use drop_file.Outcome.{drop_file_receive_exception, filesystem_error, Exception}
use drop_file.InitSessionMessage.{file_size_key, is_compressed_key, filename_key}
use drop_file.Common.{
  ℕ, ◌≤◌, ◌≡◌, ap, ◌∙◌, subst, ◌⊎◌, inl, inr, Bool, false, Option, none, some, arith, Option-cases,
  Bytes,
}
use drop_file.Network.{Net}
use drop_file.Json.{JsonLib, read_field}
use drop_file.Utils.{bytes_to_human_readable}
use drop_file.DropFileReceiveClient.Response.{answer, parse_response, assert_json_properties}

module _ {J : Type 0} (net : Net) (json : JsonLib J) (found : Bytes → Option Bool)
    (free : Bool → Option ℕ) where
  -- A response that describes a file which is not here yet and for which there is space.
  pub record IsOffer (received : Bytes) (j : J) : Type 0 where
    pub parses : json.parse received ≡ some j
    pub is_new :
        (filename : Bytes) × (read_field json.get_string (json.find filename_key j) ≡ some filename)
        × (found filename ≡ some false)
    pub fits :
        (is_compressed : Bool) × (n : ℕ) × (space : ℕ) × (read_field json.get_bool
            (json.find is_compressed_key j)
          ≡ some is_compressed)
        × (read_field json.get_size (json.find file_size_key j) ≡ some n)
        × (free is_compressed ≡ some space)
        × (n ≤ space)

  -- A response is accepted only if it parses, names a file that does not exist, and announces a size
  -- that fits into the free space of the directory it goes to.
  pub answer-IsOffer :
      (received : Bytes) (j : J) → answer net json found free received ≡ ok j → IsOffer received j
  unfolding answer parse_response assert_json_properties bytes_to_human_readable
  answer-IsOffer received j h = elim (Option-cases (json.parse received)) [
    | inl e ↦ ground arith
    | inr (i, e) ↦ elim (Option-cases (read_field json.get_bool (json.find is_compressed_key i))) [
      | inl eb ↦ ground arith
      | inr (b, eb) ↦ elim (Option-cases (read_field json.get_string (json.find filename_key i))) [
        | inl ef ↦ ground arith
        | inr (f, ef) ↦ elim (Option-cases (read_field json.get_size (json.find file_size_key i))) [
          | inl en ↦ ground arith
          | inr (n, en) ↦ elim (Option-cases (found f)) [
            | inl en2 ↦ ground arith
            | inr (there, ed) ↦ elim (Option-cases (free b)) [
              | inl es ↦ ground arith
              | inr (space, es) ↦
                  let same : i ≡ j = ground arith in
                  let new : there ≡ false = ground arith in
                  let fits : n ≤ space = ground arith in
                  subst (IsOffer received) same (record {
                    parses = e;
                    is_new = (f, ef, ed ∙ ap some new);
                    fits = (b, n, space, eb, en, es, fits);
                  })
            ]
          ]
        ]
      ]
    ]
  ]

  -- The exceptions of getServerResponse: where the file system fails, its error; for a size of 0,
  -- undefined behaviour; else its own.
  abbrev pub IsRefusal : Bytes → Exception → Type 0
  IsRefusal received (drop_file_receive_exception t) = Unit
  IsRefusal received filesystem_error =
      ((filename : Bytes) × (found filename ≡ none)) ⊎ ((b : Bool) × (free b ≡ none))
  IsRefusal received Exception.undefined =
      (j : J) × (json.parse received ≡ some j)
      × (read_field json.get_size (json.find file_size_key j) ≡ some 0)
  IsRefusal received _ = ⊥

  Refused : Bytes → Result J → Type 0
  Refused received (ok j) = Unit
  Refused received (err x) = IsRefusal received x

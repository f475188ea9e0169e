-- ===== src/ServerSideClientSession/Sound.antt =====
-- A sessions manager that can serve whoever asks stays so under its operations.
use drop_file.SessionsManager.Register.{entry, generate_session_id-ok}
use drop_file.SessionsManager.Expiry.{expire-IsDistinct, find-expire-none}
use drop_file.SessionsManager.Registry.{
  erase-IsDistinct, find-erase_other, find-erase_self, IsDistinct,
}
use drop_file.ServerSideClientSession.Contained.{IsServable, IsReady}
use drop_file.SessionsManager.{
  register_sender, get_sender_with_metadata, erase, expire, TimedClientSession, generate_session_id,
  find, terminate_timeout_clients, Sessions, SessionsManager,
}
use drop_file.ServerSideClientSession.{Draws, register_sender, get_sender_with_metadata}
use drop_file.Json.{JsonLib}
use drop_file.Network.{Net}
use drop_file.Outcome.{Leaves}
use drop_file.Common.{
  ℕ, suc, ◌≡◌, sym, subst, ◌∙◌, ◌≢◌, inl, inr, none, some, List, [], ◌∷◌, arith, Bool-cases,
  Option-cases, Bytes, bytes_eq, bytes_eq→eq, bytes_eq_iff,
}

module _ {J : Type 0} (net : Net) (json : JsonLib J) where
  -- A manager that can serve whoever asks: its map has no two entries of one code.
  pub record IsSound (m : SessionsManager J) : Type 0 where
    pub ready : IsReady net json m
    pub distinct : IsDistinct m.senders_sessions

  with_entry-IsSound :
      (m : SessionsManager J) (id : Bytes) (e : TimedClientSession J)
      → IsSound m
      → find id m.senders_sessions ≡ none
      → IsServable net json e.session_data
      → IsSound (record m { senders_sessions = (id, e) ∷ m.senders_sessions })
  unfolding find generate_session_id
  with_entry-IsSound m id e s free good = record {
    ready = record {
      words = record {
        some_adjective = s.ready.words.some_adjective;
        adjectives_fit = s.ready.words.adjectives_fit;
        some_noun = s.ready.words.some_noun;
        nouns_fit = s.ready.words.nouns_fit;
      };
      codes_dump = s.ready.codes_dump;
      servable = λ code x h. elim (Bool-cases (bytes_eq id code)) [
        | inl same ↦
            let eq : e ≡ x = ground arith in subst (λ y. IsServable net json y.session_data) eq good
        | inr distinct ↦ s.ready.servable code x (ground arith)
      ];
    };
    distinct = (free, s.distinct);
  }

  -- A manager with fewer entries.
  fewer-IsSound :
      (m : SessionsManager J) (es : Sessions J)
      → IsSound m
      → IsDistinct es
      → ((code : Bytes) (x : TimedClientSession J)
          → find code es ≡ some x
          → find code m.senders_sessions ≡ some x)
      → IsSound (record m { senders_sessions = es })
  unfolding generate_session_id
  fewer-IsSound m es s d kept = record {
    ready = record {
      words = record {
        some_adjective = s.ready.words.some_adjective;
        adjectives_fit = s.ready.words.adjectives_fit;
        some_noun = s.ready.words.some_noun;
        nouns_fit = s.ready.words.nouns_fit;
      };
      codes_dump = s.ready.codes_dump;
      servable = λ code x h. s.ready.servable code x (kept code x h);
    };
    distinct = d;
  }

  pub register_sender-Leaves :
      (this now : ℕ) (j : J) (draws : List Draws) (m : SessionsManager J)
      → IsSound m
      → IsServable net json j
      → Leaves IsSound (register_sender net.format_number this j now draws m)
  unfolding register_sender
  register_sender-Leaves this now j [] m s good = tt
  register_sender-Leaves this now j (d ∷ draws) m s good =
      let (id, made) = generate_session_id-ok net.format_number m d s.ready.words in
      rw made (elim (Option-cases (find id m.senders_sessions)) [
        | inr (x, used) ↦ rw used (register_sender-Leaves this now j draws m s good)
        | inl free ↦
            rw free (with_entry-IsSound m id (entry net.format_number this j now) s free good)
      ])

  erased :
      (code k : Bytes) (es : Sessions J) (x : TimedClientSession J)
      → IsDistinct es
      → find k (erase code es) ≡ some x
      → find k es ≡ some x
  erased code k es x d h = elim (Bool-cases (bytes_eq k code)) [
    | inl same ↦
        let gone : find k (erase code es) ≡ none =
          rw (bytes_eq→eq k code same) (find-erase_self code es d) in
        cc
    | inr distinct ↦
        let ne : k ≢ code = λ e. ground (arith, bytes_eq_iff k code) in
        sym (find-erase_other k code es ne) ∙ h
  ]

  pub get_sender-Leaves :
      (code : Bytes) (m : SessionsManager J)
      → IsSound m
      → Leaves IsSound (get_sender_with_metadata code m)
  unfolding get_sender_with_metadata
  get_sender-Leaves code m s = elim (Option-cases (find code m.senders_sessions)) [
    | inl e ↦ rw e s
    | inr (x, e) ↦ rw e (
        fewer-IsSound m (erase code m.senders_sessions) s
          (erase-IsDistinct code m.senders_sessions s.distinct)
          (λ k y. erased code k m.senders_sessions y s.distinct))
  ]

  swept :
      (client_timeout : ℕ) (clock : ℕ → ℕ) (k : Bytes) (i : ℕ) (es : Sessions J)
      (x : TimedClientSession J)
      → IsDistinct es
      → find k (expire client_timeout clock i es) ≡ some x
      → find k es ≡ some x
  unfolding find expire
  swept t clock k i [] x d h = h
  swept t clock k i ((c, e) ∷ es) x d h = ground (
    arith,
    bytes_eq_iff c k,
    find-expire-none t clock k (suc i) es,
    swept t clock k (suc i) es x d.1,
  )

  pub terminate_timeout_clients-IsSound :
      (client_timeout : ℕ) (clock : ℕ → ℕ) (m : SessionsManager J)
      → IsSound m
      → IsSound (terminate_timeout_clients client_timeout clock m)
  unfolding terminate_timeout_clients
  terminate_timeout_clients-IsSound t clock m s =
      fewer-IsSound m (expire t clock 0 m.senders_sessions) s
        (expire-IsDistinct t clock 0 m.senders_sessions s.distinct)
        (λ k x. swept t clock k 0 m.senders_sessions x s.distinct)

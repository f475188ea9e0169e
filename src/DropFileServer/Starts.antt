-- ===== src/DropFileServer/Starts.antt =====
-- A server on a manager that was just made.
use drop_file.DropFileServer.Runs.{run-Keeps, IsServer, Keeps, IsHarmlessRun}
use drop_file.ServerSideClientSession.Sound.{IsSound}
use drop_file.InitSessionMessage.{code_words_key}
use drop_file.SessionsManager.{generate_session_id, find, Draws}
use drop_file.SessionsManager.Construct.{make_manager-Made, Made, make_manager}
use drop_file.Json.{Scalar}
use drop_file.Common.{◌^◌, ◌<◌, ◌≡◌, refl, Option, some, List, [], ◌∷◌, Bytes, length}
use drop_file.Result.{ok}
use drop_file.DropFileServer.{
  run, Event, SessionsManager, Tcp, new_server, JsonLib, Net, accept_new_connection,
}

module _ {J : Type 0} (net : Net) (json : JsonLib J) where
  -- The codes that the manager can draw can be written out: they are UTF-8 texts.
  abbrev pub CodesDump : SessionsManager J → Type 0
  CodesDump m =
      (d : Draws) (id : Bytes)
      → generate_session_id net.format_number m d ≡ ok id
      → (t : Bytes) × (json.dump (json.object ((code_words_key, Scalar.string id) ∷ [])) ≡ some t)

  Made-IsSound :
      (m : SessionsManager J)
      → Made m
      → length m.nouns < 2 ^ 64
      → length m.adjectives < 2 ^ 64
      → CodesDump m
      → IsSound net json m
  unfolding find
  Made-IsSound m made nouns_fit adjectives_fit codes_dump = record {
    ready = record {
      words = record {
        some_adjective = made.some_adjective;
        adjectives_fit = adjectives_fit;
        some_noun = made.some_noun;
        nouns_fit = nouns_fit;
      };
      codes_dump = codes_dump;
      servable = λ code e h. (let k = rw made.none_waits at h in cc);
    };
    distinct = rw made.none_waits tt;
  }

  module _ (json_nouns json_adjectives : Option (Option (List (Option Bytes))))
      (m : SessionsManager J) (e : make_manager json_nouns json_adjectives ≡ ok m)
      (nouns_fit : length m.nouns < 2 ^ 64) (adjectives_fit : length m.adjectives < 2 ^ 64)
      (codes_dump : CodesDump m) where
    pub new_server-IsServer : IsServer net json (new_server m)
    unfolding new_server accept_new_connection
    new_server-IsServer =
        let made = make_manager-Made json_nouns json_adjectives m e in
        (
          record {
            managed = (m, refl, Made-IsSound m made nouns_fit adjectives_fit codes_dump);
            known = tt;
          },
          refl,
        )

    -- A server that is made with a manager that the constructor of SessionsManager returned, whose
    -- codes are UTF-8 texts: whatever completes and in which order, if no first message that is read
    -- announces an empty file, no exception leaves run, and where it ends, the server still accepts.
    pub run-new_server :
        (tcp : Tcp) (es : List Event)
        → IsHarmlessRun net json tcp es (new_server m)
        → Keeps (IsServer net json) (run tcp net json es (new_server m))
    run-new_server tcp es harmless =
        run-Keeps net json tcp es (new_server m) new_server-IsServer harmless

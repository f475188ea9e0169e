-- ===== src/ServerArgParser.antt =====
-- src/server/ServerArgParser.cpp behind the parse of the options, which is argparse's, and main of
-- apps/drop-file-server.cpp.
use drop_file.SessionsManager.Construct.{make_manager}
use drop_file.Json.{JsonLib}
use drop_file.Network.{Net}
use drop_file.DropFileServer.{new_server, run, Server, Event, Tcp}
use drop_file.Common.{ℕ, ◌⊎◌, inl, inr, Option, none, some, List, Bytes}
use drop_file.Result.{err, ok, Result, ◌>>=◌}
use drop_file.Outcome.{Outcome, runtime_error}

pub record ServerArgs : Type 0 where
  pub certs_directory : Bytes
  pub port : ℕ
  pub client_timeout : ℕ

abbrev pub default_port : ℕ
default_port = 8080

-- In seconds.
abbrev pub default_client_timeout : ℕ
default_client_timeout = 120

-- What is given on the command line.
pub record ServerOptions : Type 0 where
  pub key_cert_dir : Bytes
  pub given_port : Option ℕ
  pub given_timeout : Option ℕ

abbrev pub or_default : ℕ → Option ℕ → ℕ
or_default n none = n
or_default n (some given) = given

-- A std::runtime_error of argparse is thrown again.
unfoldable pub parse_server_args : ServerOptions ⊎ Bytes → Result ServerArgs
parse_server_args (inl o) = ok (record {
  certs_directory = o.key_cert_dir;
  port = or_default default_port o.given_port;
  client_timeout = or_default default_client_timeout o.given_timeout;
})
parse_server_args (inr what) = err (runtime_error what)

module _ {J : Type 0} (tcp : Tcp) (net : Net) (json : JsonLib J) where
  -- main: the manager and the server are made, and then it runs, over what completes.
  unfoldable pub server_main :
      ServerOptions ⊎ Bytes
      → Option (Option (List (Option Bytes)))
      → Option (Option (List (Option Bytes)))
      → List Event
      → Result (Outcome (Server J) (Unit {0}))
  server_main command_line json_nouns json_adjectives es = do
    _ ← parse_server_args command_line
    sessions_manager ← make_manager json_nouns json_adjectives
    ok (run tcp net json es (new_server sessions_manager))
